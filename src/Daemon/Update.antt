-- ===== src/Daemon/Update.antt =====
-- The arguments of an update call: `parse_address` to `parse_networks` and the loop of
-- `handle_update_call` in src/dbus_server.c. Memory does not run out.
pub mod Laws
pub mod Servers
use dnsconfd.Prelude.{
  ℕ, Bool, true, false, not, ◌&&◌, ◌||◌, Option, none, some, List, [], ◌∷◌, ◌++◌, Text, text_eq,
  codes, if◌then◌else◌, ◌==◌, leb, length, is_nil,
}
use dnsconfd.Prelude.Int.{ℤ, pos, negsuc, pos_part, ltb_ℤ, ◌-ℤ◌}
use dnsconfd.Ip.{
  SockAddr, Inet, inet, inet6, cleared, parse_ip_str, set_default_port, are_ips_equal, is_wireless,
}
use dnsconfd.Network.{NetworkAddress, network_address_t_from_string}
use dnsconfd.Server.{
  Server, server_uri_t_init, Protocol, protocols_end, tls, protocol_eq, protocol_from_nstring,
  ifnamsiz,
}

pub data ParseError : Type 0 where
  missing_address invalid_address port_invalid invalid_protocol interface_too_long : ParseError
  invalid_net invalid_domain invalid_mode : ParseError

-- An error code that is not 0, or the structure that was filled.
pub data Parsed (A : Type 0) : Type 0 where
  error : ParseError → Parsed A
  parsed : A → Parsed A

abbrev pub then_parse : {A B : Type 0} → Parsed A → (A → Parsed B) → Parsed B
then_parse (error e) f = error e
then_parse (parsed a) f = f a

-- What `g_variant_dict_lookup_value` gives for the keys and types that the program asks for. The
-- address is a string or an array of bytes.
pub record ServerDict : Type 0 where
  pub address_string : Option Text
  pub address_bytes : Option Text
  pub port : Option ℤ
  pub priority : Option ℤ
  pub protocol : Option Text
  pub interface : Option Text
  pub dnssec : Option Bool
  pub ca : Option Text
  pub name : Option Text
  pub routing_domains : Option (List Text)
  pub search_domains : Option (List Text)
  pub networks : Option (List Text)

-- The libraries and the system: `idn2_lookup_u8`, the directories of sysfs, and what the memory that
-- `malloc` returns holds.
pub record Host : Type 0 where
  pub net : Inet
  pub idn : Text → Option Text
  pub is_directory : Text → Bool
  pub memory : ℕ → SockAddr

abbrev address_of_bytes : Server → Text → Parsed Server
address_of_bytes s bytes =
    if length bytes == 4
    then parsed (record s { address = record cleared { family = inet; sin_addr = bytes } })
    else if length bytes == 16
    then parsed (record s { address = record cleared { family = inet6; sin6_addr = bytes } })
    else error invalid_address

abbrev parsed_address : Server → Option SockAddr → Parsed Server
parsed_address s none = error invalid_address
parsed_address s (some a) = parsed (record s { address = a })

parse_address_in : Inet → Option Text → Option Text → Server → Parsed Server
parse_address_in net (some t) bytes s = parsed_address s (parse_ip_str net t s.address)
parse_address_in net none (some bytes) s = address_of_bytes s bytes
parse_address_in net none none s = error missing_address

unfoldable pub parse_address : Inet → ServerDict → Server → Parsed Server
unfolding parse_address_in
parse_address net dict s = parse_address_in net dict.address_string dict.address_bytes s

-- `sin_port` and `sin6_port` are the same bytes.
unfoldable pub parse_port : ℤ → Server → Parsed Server
parse_port raw_port s =
    if ltb_ℤ raw_port (pos 0) || ltb_ℤ (pos 65535) raw_port
    then error port_invalid
    else parsed (record s { address = record s.address { port = pos_part raw_port } })

unfoldable pub parse_priority : ℤ → Server → Parsed Server
parse_priority raw_priority s = parsed (record s { priority = raw_priority })

unfoldable pub parse_protocol : Text → Server → Parsed Server
parse_protocol protocol_str s =
    let p = protocol_from_nstring protocol_str (length protocol_str) in
    if protocol_eq p protocols_end
    then error invalid_protocol
    else parsed (record s { protocol = p })

unfoldable pub parse_interface : Text → Server → Parsed Server
parse_interface interface_str s =
    if leb ifnamsiz (length interface_str)
    then error interface_too_long
    else parsed (record s { interface = interface_str })

unfoldable pub parse_dnssec : Bool → Server → Parsed Server
parse_dnssec dnssec_val s = parsed (record s { dnssec = if dnssec_val then 1 else 0 })

unfoldable pub parse_ca : Text → Server → Parsed Server
parse_ca ca_str s = parsed (record s { certification_authority = some ca_str })

unfoldable pub parse_name : Text → Server → Parsed Server
parse_name name_str s = parsed (record s { name = some name_str })

-- `strstr(domain, "..")`.
abbrev starts_dot : Text → Bool
starts_dot [] = false
starts_dot (c ∷ t) = c == b'.'

abbrev pub has_dots : Text → Bool
has_dots [] = false
has_dots (c ∷ t) = (c == b'.' && starts_dot t) || has_dots t

abbrev converted : Option Text → Parsed Text
converted none = error invalid_domain
converted (some d) = parsed d

abbrev one_domain : Host → Text → Parsed Text
one_domain host domain =
    if is_nil domain
    then parsed (codes ".")
    else if has_dots domain
    then error invalid_domain
    else converted (host.idn domain)

unfoldable pub save_domains : Host → List Text → List Text → Parsed (List Text)
save_domains host [] saved = parsed saved
save_domains host (d ∷ ds) saved =
    then_parse (one_domain host d) (λ domain. save_domains host ds (saved ++ (domain ∷ [])))

unfoldable pub parse_domains : Host → List Text → Server → Parsed Server
unfolding save_domains
parse_domains host domains s =
    then_parse (save_domains host domains s.routing_domains)
      (λ l. parsed (record s { routing_domains = l }))

unfoldable pub parse_search : Host → List Text → Server → Parsed Server
unfolding save_domains
parse_search host domains s =
    then_parse (save_domains host domains s.search_domains)
      (λ l. parsed (record s { search_domains = l }))

abbrev pub read_network : Option NetworkAddress → Parsed NetworkAddress
read_network none = error invalid_net
read_network (some n) = parsed n

unfoldable pub parse_networks : Host → List Text → Server → Parsed Server
parse_networks host [] s = parsed s
parse_networks host (t ∷ ts) s =
    then_parse
      (read_network (network_address_t_from_string host.net (host.memory (length s.networks)) t))
      (λ n. parse_networks host ts (record s { networks = s.networks ++ (n ∷ []) }))

-- A key that is missing, or of another type, is passed over.
abbrev pub field : {A : Type 0} → Option A → (A → Server → Parsed Server) → Server → Parsed Server
field none parser s = parsed s
field (some v) parser s = parser v s

-- The loop over `key_type_parser`, in its order.
unfoldable pub parse_fields : Host → ServerDict → Server → Parsed Server
parse_fields host dict s = then_parse (field dict.port parse_port s) λ s1.
    then_parse (field dict.priority parse_priority s1) λ s2.
      then_parse (field dict.protocol parse_protocol s2) λ s3.
        then_parse (field dict.interface parse_interface s3) λ s4.
          then_parse (field dict.dnssec parse_dnssec s4) λ s5.
            then_parse (field dict.ca parse_ca s5) λ s6.
              then_parse (field dict.name parse_name s6) λ s7.
                then_parse (field dict.routing_domains (parse_domains host) s7) λ s8.
                  then_parse (field dict.search_domains (parse_search host) s8)
                    λ s9. field dict.networks (parse_networks host) s9

-- Without routing domains the server is one of the root; the port is that of the protocol.
unfoldable pub with_defaults : Server → Server
with_defaults s = record s {
  routing_domains = if is_nil s.routing_domains then codes "." ∷ [] else s.routing_domains;
  address = set_default_port s.address (if not (protocol_eq s.protocol tls) then 53 else 853);
}

unfoldable pub parse_server : Host → ServerDict → Parsed Server
unfolding parse_fields with_defaults
parse_server host dict =
    then_parse (parse_address host.net dict server_uri_t_init)
      λ s. then_parse (parse_fields host dict s) λ filled. parsed (with_defaults filled)

-- The same address on another interface.
abbrev pub conflicts : Server → Server → Bool
conflicts s existing =
    are_ips_equal s.address existing.address && not (text_eq s.interface existing.interface)

abbrev pub is_duplicate : Server → List Server → Bool
is_duplicate s [] = false
is_duplicate s (existing ∷ l) = if conflicts s existing then true else is_duplicate s l

-- `(int)MAX((int64_t)priority - 10, INT_MIN)`.
abbrev pub lower : ℤ → ℤ
lower priority =
    if ltb_ℤ (priority -ℤ pos 10) (negsuc 0x7fff_ffff)
    then negsuc 0x7fff_ffff
    else priority -ℤ pos 10

-- The priority of a wireless interface is lowered.
unfoldable pub lowered : Host → Server → Server
lowered host s =
    if is_wireless host.is_directory s.interface
    then record s { priority = lower s.priority }
    else s

abbrev pub add_parsed : Host → Server → List Server → List Server
add_parsed host s servers =
    if is_duplicate s servers then servers else servers ++ (lowered host s ∷ [])

-- The loop over the servers, which ends with the first error.
unfoldable pub parse_servers : Host → List ServerDict → List Server → Parsed (List Server)
unfolding parse_server
parse_servers host [] servers = parsed servers
parse_servers host (d ∷ ds) servers =
    then_parse (parse_server host d) λ s. parse_servers host ds (add_parsed host s servers)
