-- ===== src/Server/Uri.antt =====
-- Servers as URIs: `parse_query` and `server_uri_t_init_from_string` of src/types/server_uri.c, with the
-- library uriparser as a parameter. Memory does not run out.
pub mod Laws
use dnsconfd.Prelude.{
  ℕ, ◌≡◌, Bool, true, false, not, ◌&&◌, ◌||◌, ◌==◌, Option, none, some, List, [], ◌∷◌, ◌++◌, Text,
  text_eq, codes, if◌then◌else◌, length, is_nil, leb, ltb, ◌>>=◌,
}
use dnsconfd.Prelude.Int.{ℤ, pos, negsuc, pos_part, ltb_ℤ}
use dnsconfd.Ip.{SockAddr, Inet, parse_ip_str}
use dnsconfd.Number.{strtol}
use dnsconfd.Network.{NetworkAddress, network_address_t_from_string}
use dnsconfd.Server.{
  Server, Protocol, protocols_end, protocol_eq, protocol_from_nstring, server_uri_t_init, ifnamsiz,
}

-- The parts of a URI that `uriParseSingleUriA` points out; `after_port` is what follows the port in the
-- text.
pub record Uri : Type 0 where
  pub scheme : Text
  pub host_text : Text
  pub port_text : Text
  pub after_port : Text
  pub query : Text

-- `none` is a result other than URI_SUCCESS. A key of a query may lack a value.
pub record UriParser : Type 0 where
  pub parse_single_uri : Text → Option Uri
  pub dissect_query : Text → Option (List (Text × Option Text))

pub query_priority : Text → Server → Option Server
query_priority value uri =
    let (n, endptr) = strtol value in
    if ltb_ℤ n (negsuc 0x7fff_ffff) || ltb_ℤ (pos 0x7fff_ffff) n || not (is_nil endptr)
    then none
    else some (record uri { priority = n })

-- `value[0] == '0'`.
abbrev starts_with_zero : Text → Bool
starts_with_zero [] = false
starts_with_zero (c ∷ value) = c == b'0'

-- One key of the query. What `malloc` returns for a network holds anything.
unfoldable pub query_field : Inet → (ℕ → SockAddr) → Text → Text → Server → Option Server
unfolding query_priority
query_field net memory key value uri =
    if text_eq key (codes "priority")
    then query_priority value uri
    else if text_eq key (codes "domain")
    then some (record uri { routing_domains = uri.routing_domains ++ (value ∷ []) })
    else if text_eq key (codes "search")
    then some (record uri { search_domains = uri.search_domains ++ (value ∷ []) })
    else if text_eq key (codes "interface")
    then if leb ifnamsiz (length value) then none else some (record uri { interface = value })
    else if text_eq key (codes "dnssec")
    then some (if starts_with_zero value then record uri { dnssec = 0 } else uri)
    else if text_eq key (codes "ca")
    then some (record uri { certification_authority = some value })
    else if text_eq key (codes "name")
    then some (record uri { name = some value })
    else if text_eq key (codes "network")
    then (network_address_t_from_string net (memory (length uri.networks)) value >>= λ n.
        some (record uri { networks = uri.networks ++ (n ∷ []) }))
    else some uri

-- The loop over the keys; one without a value is an error.
unfoldable pub query_loop :
    Inet → (ℕ → SockAddr) → List (Text × Option Text) → Server → Option Server
unfolding query_field
query_loop net memory [] uri = some uri
query_loop net memory ((key, none) ∷ list) uri = none
query_loop net memory ((key, some value) ∷ list) uri =
    query_field net memory key value uri >>= λ next. query_loop net memory list next

unfoldable pub parse_query : UriParser → Inet → (ℕ → SockAddr) → Text → Server → Option Server
unfolding query_loop
parse_query parser net memory query uri =
    parser.dissect_query query >>= λ list. query_loop net memory list uri

-- `refused` is the return of -1; `overrun` a write behind the end of `ip_str`.
pub data Filling : Type 0 where
  refused overrun : Filling
  filled : Server → Filling

abbrev or_refused : Option Server → Filling
or_refused none = refused
or_refused (some uri) = filled uri

-- `INET6_ADDRSTRLEN`, the size of `ip_str`.
abbrev pub inet6_addrstrlen : ℕ
inet6_addrstrlen = 46

-- The port, if there is one. `strtol` reads on behind it; `sin_port` and `sin6_port` are the same bytes.
unfoldable pub uri_port : Uri → Server → Option Server
uri_port parsed_uri uri =
    if is_nil parsed_uri.port_text
    then some uri
    else (let (n, rest) = strtol (parsed_uri.port_text ++ parsed_uri.after_port) in
        if ltb_ℤ n (pos 0) || ltb_ℤ (pos 65535) n
        then none
        else some (record uri { address = record uri.address { port = pos_part n } }))

uri_query : UriParser → Inet → (ℕ → SockAddr) → Uri → Server → Option Server
unfolding parse_query
uri_query parser net memory parsed_uri uri =
    if is_nil parsed_uri.query then some uri else parse_query parser net memory parsed_uri.query uri

-- The host, the port and the query.
unfoldable pub uri_rest : UriParser → Inet → (ℕ → SockAddr) → Uri → Server → Filling
unfolding uri_port uri_query
uri_rest parser net memory parsed_uri uri =
    if ltb inet6_addrstrlen (length parsed_uri.host_text)
    then refused
    else if length parsed_uri.host_text == inet6_addrstrlen
    then overrun
    else or_refused (
        parse_ip_str net parsed_uri.host_text uri.address >>= λ a.
        uri_port parsed_uri (record uri { address = a }) >>= uri_query parser net memory parsed_uri)

unfoldable pub uri_parts : UriParser → Inet → (ℕ → SockAddr) → Uri → Filling
unfolding uri_rest
uri_parts parser net memory parsed_uri =
    let p = protocol_from_nstring parsed_uri.scheme (length parsed_uri.scheme) in
    if is_nil parsed_uri.scheme
    then uri_rest parser net memory parsed_uri server_uri_t_init
    else if protocol_eq p protocols_end
    then refused
    else uri_rest parser net memory parsed_uri (record server_uri_t_init { protocol = p })

unfoldable pub server_uri_t_init_from_string : UriParser → Inet → (ℕ → SockAddr) → Text → Filling
unfolding uri_parts
server_uri_t_init_from_string parser net memory uri_string =
    elim (parser.parse_single_uri uri_string) [
      | none ↦ refused
      | some parsed_uri ↦ uri_parts parser net memory parsed_uri
    ]
