-- ===== src/Server/Json/Members.antt =====
-- The fields of a server as JSON in src/types/server_uri.c, one by one: what `server_uri_to_json` writes is
-- what the parsers read.
use mathlib.Core.List.{append_assoc, append-nil}
use dnsconfd.Prelude.{
  ℕ, ◌≤◌, ◌≡◌, ap, sym, ◌∙◌, true, false, not, none, some, List, [], ◌∷◌, ◌++◌, Text, arith, All,
  length, ◌==◌,
}
use dnsconfd.Prelude.Int.{ℤ, pos, IsInt32}
use dnsconfd.Ip.{SockAddr, Inet, InetLaws, are_ips_equal}
use dnsconfd.Network.{NetworkAddress, network_address_t_from_string, network_address_to_string}
use dnsconfd.Network.Parse.{IsNetwork, from_string-to_string}
use dnsconfd.Server.{
  Server, Protocol, protocols_end, protocol_eq, dns_protocol_t_to_string, protocol_from-to_string,
}
use dnsconfd.Json.{integer, boolean, string, array, strings}
use dnsconfd.Server.Json.{
  parse_json_port_field, parse_json_protocol_field, parse_json_priority_field,
  parse_json_interface_field, parse_json_dnssec_field, append_strings, parse_json_string_list,
  append_json_networks, network_text, network_texts,
}

-- The same networks, up to the bytes that their families do not use.
abbrev pub SameNetworks : List NetworkAddress → List NetworkAddress → Type 0
SameNetworks [] [] = Unit
SameNetworks (m ∷ ms) (n ∷ ns) =
    (are_ips_equal m.address n.address ≡ true) × (m.prefix ≡ n.prefix) × SameNetworks ms ns
SameNetworks _ _ = ⊥

-- The same server, but for the CA, which JSON does not carry.
pub record IsEcho (t s : Server) : Type 0 where
  pub same_ip : are_ips_equal t.address s.address ≡ true
  pub port : t.address.port ≡ s.address.port
  pub priority : t.priority ≡ s.priority
  pub interface : t.interface ≡ s.interface
  pub dnssec : t.dnssec ≡ s.dnssec
  pub protocol : t.protocol ≡ s.protocol
  pub ca : t.certification_authority ≡ none
  pub name : t.name ≡ s.name
  pub routing : t.routing_domains ≡ s.routing_domains
  pub search : t.search_domains ≡ s.search_domains
  pub networks : SameNetworks t.networks s.networks

append_strings_lem : (l acc : List Text) → append_strings (strings l) acc ≡ some (acc ++ l)
unfolding append_strings strings
append_strings_lem [] acc = ap some (sym (append-nil acc))
append_strings_lem (t ∷ l) acc =
    append_strings_lem l (acc ++ (t ∷ [])) ∙ ap some (append_assoc acc (t ∷ []) l)

pub domains_lem : (l : List Text) → parse_json_string_list (array (strings l)) [] ≡ some l
unfolding parse_json_string_list
domains_lem l = append_strings_lem l []

pub port_lem :
    (n : ℕ) (uri : Server)
    → n ≤ 65535
    → parse_json_port_field (integer (pos n)) uri
      ≡ some (record uri { address = record uri.address { port = n } })
unfolding parse_json_port_field
port_lem n uri h = ground arith

pub priority_lem :
    (n : ℤ) (uri : Server)
    → IsInt32 n
    → parse_json_priority_field (integer n) uri ≡ some (record uri { priority = n })
unfolding parse_json_priority_field
priority_lem n uri h = ground arith

pub interface_lem :
    (t : Text) (uri : Server)
    → length t ≤ 15
    → parse_json_interface_field (string t) uri ≡ some (record uri { interface = t })
unfolding parse_json_interface_field
interface_lem t uri h = ground arith

pub protocol_lem :
    (p : Protocol) (uri : Server)
    → protocol_eq p protocols_end ≡ false
    → parse_json_protocol_field (string (dns_protocol_t_to_string p)) uri
      ≡ some (record uri { protocol = p })
unfolding parse_json_protocol_field
protocol_lem p uri h = rw (protocol_from-to_string p, h)

pub dnssec_lem :
    (n : ℕ) (uri : Server)
    → n ≤ 1
    → parse_json_dnssec_field (boolean (not (n == 0))) uri ≡ some (record uri { dnssec = n })
unfolding parse_json_dnssec_field
dnssec_lem n uri h = ground arith

module _ {net : Inet} (laws : InetLaws net) (memory : ℕ → SockAddr) where
  network_text_lem :
      (n : NetworkAddress) (m : SockAddr)
      → IsNetwork n
      → (k : NetworkAddress) × (network_address_t_from_string net m (network_text net n) ≡ some k)
        × (are_ips_equal k.address n.address ≡ true)
        × (k.prefix ≡ n.prefix)
  network_text_lem n m h =
      let (t, k, shown, parsed, same, prefix) = from_string-to_string laws n m h in
      (k, rw (printed n t shown) parsed, same, prefix)
    where
      printed :
          (n : NetworkAddress) (t : Text)
          → network_address_to_string net n ≡ some t
          → network_text net n ≡ t
      printed n t e = unfold network_address_to_string in ground (arith, e)

  pub networks_lem :
      (l : List NetworkAddress) (uri : Server)
      → All IsNetwork l
      → (ms : List NetworkAddress) × (append_json_networks net memory
            (strings (network_texts net l))
            uri
          ≡ some (record uri { networks = uri.networks ++ ms }))
        × SameNetworks ms l
  unfolding append_json_networks strings
  networks_lem [] uri h =
      ([], ap (λ x. some (record uri { networks = x })) (sym (append-nil uri.networks)), tt)
  networks_lem (n ∷ l) uri h =
      let (k, e, same, prefix) = network_text_lem n (memory (length uri.networks)) h.0 in
      let (ms, f, sames) =
        networks_lem l (record uri { networks = uri.networks ++ (k ∷ []) }) h.1 in
      (
        k ∷ ms,
        rw e f
            ∙ ap (λ x. some (record uri { networks = x })) (append_assoc uri.networks (k ∷ []) ms),
        (same, prefix, sames),
      )
