-- ===== src/Server/Json.antt =====
-- The servers as JSON: the `parse_json` functions, `server_uri_t_list_from_json` and
-- `server_uri_to_json` of src/types/server_uri.c. `none` is the return of -1; memory does not run out.
pub mod Values
pub mod Members
pub mod Laws
pub mod Keys
pub mod Echo
pub mod Null
use dnsconfd.Prelude.{
  ℕ, Bool, true, false, not, ◌||◌, Option, none, some, List, [], ◌∷◌, ◌++◌, Text, text_eq, codes,
  if◌then◌else◌, ◌==◌, ◌>>=◌, leb, length, is_nil,
}
use dnsconfd.Prelude.Int.{ℤ, pos, negsuc, pos_part, ltb_ℤ, eqb_ℤ}
use dnsconfd.Ip.{SockAddr, Inet, parse_ip_str, ip_text}
use dnsconfd.Number.{decimal}
use dnsconfd.Network.{NetworkAddress, network_address_t_from_string}
use dnsconfd.Server.{
  Server, Protocol, protocols_end, protocol_eq, server_uri_t_init, protocol_from_nstring,
  dns_protocol_t_to_string, ifnamsiz,
}
use dnsconfd.Json.{
  Json, null, boolean, integer, real, string, array, object, Items, no_items, item, Fields,
  no_fields, json_object_get, json_object_set_new, strings,
}

-- `sin_port` and `sin6_port` are the same bytes.
unfoldable pub parse_json_port_field : Json → Server → Option Server
parse_json_port_field (integer n) uri =
    if ltb_ℤ n (pos 0) || ltb_ℤ (pos 65535) n
    then none
    else some (record uri { address = record uri.address { port = pos_part n } })
parse_json_port_field _ uri = none

abbrev with_address : Server → Option SockAddr → Option Server
with_address uri none = none
with_address uri (some a) = some (record uri { address = a })

unfoldable pub parse_json_address_field : Inet → Option Json → Server → Option Server
parse_json_address_field net (some (string t)) uri =
    with_address uri (parse_ip_str net t uri.address)
parse_json_address_field net _ uri = none

unfoldable pub parse_json_protocol_field : Json → Server → Option Server
parse_json_protocol_field (string t) uri =
    let p = protocol_from_nstring t (length t) in
    if protocol_eq p protocols_end then none else some (record uri { protocol = p })
parse_json_protocol_field _ uri = none

unfoldable pub parse_json_priority_field : Json → Server → Option Server
parse_json_priority_field (integer n) uri =
    if ltb_ℤ n (negsuc 0x7fff_ffff) || ltb_ℤ (pos 0x7fff_ffff) n
    then none
    else some (record uri { priority = n })
parse_json_priority_field _ uri = none

unfoldable pub parse_json_interface_field : Json → Server → Option Server
parse_json_interface_field (string t) uri =
    if leb ifnamsiz (length t) then none else some (record uri { interface = t })
parse_json_interface_field _ uri = none

-- A text other than "0" leaves the flag as it is.
unfoldable pub parse_json_dnssec_field : Json → Server → Option Server
parse_json_dnssec_field (boolean b) uri = some (record uri { dnssec = if b then 1 else 0 })
parse_json_dnssec_field (integer n) uri =
    some (record uri { dnssec = if eqb_ℤ n (pos 0) then 0 else 1 })
parse_json_dnssec_field (string t) uri =
    some (if text_eq t (codes "0") then record uri { dnssec = 0 } else uri)
parse_json_dnssec_field _ uri = none

unfoldable pub parse_json_ca_field : Json → Server → Option Server
parse_json_ca_field (string t) uri = some (record uri { certification_authority = some t })
parse_json_ca_field _ uri = none

unfoldable pub parse_json_name_field : Json → Server → Option Server
parse_json_name_field (string t) uri = some (record uri { name = some t })
parse_json_name_field _ uri = none

-- The loop over an array that is to hold texts.
unfoldable pub append_strings : Items → List Text → Option (List Text)
append_strings no_items list = some list
append_strings (item (string t) more) list = append_strings more (list ++ (t ∷ []))
append_strings (item _ more) list = none

unfoldable pub parse_json_string_list : Json → List Text → Option (List Text)
unfolding append_strings
parse_json_string_list (array items) list = append_strings items list
parse_json_string_list _ list = none

unfoldable pub parse_json_domains_field : Json → Server → Option Server
unfolding parse_json_string_list
parse_json_domains_field value uri = parse_json_string_list value uri.routing_domains >>= λ l.
    some (record uri { routing_domains = l })

unfoldable pub parse_json_search_domains_field : Json → Server → Option Server
unfolding parse_json_string_list
parse_json_search_domains_field value uri = parse_json_string_list value uri.search_domains >>= λ l.
    some (record uri { search_domains = l })

-- The loop over the networks. What `malloc` returns for each holds anything.
unfoldable pub append_json_networks : Inet → (ℕ → SockAddr) → Items → Server → Option Server
append_json_networks net memory no_items uri = some uri
append_json_networks net memory (item (string t) more) uri =
    network_address_t_from_string net (memory (length uri.networks)) t >>= λ n.
    append_json_networks net memory more (record uri { networks = uri.networks ++ (n ∷ []) })
append_json_networks net memory (item _ more) uri = none

unfoldable pub parse_json_networks_field : Inet → (ℕ → SockAddr) → Json → Server → Option Server
unfolding append_json_networks
parse_json_networks_field net memory (array items) uri = append_json_networks net memory items uri
parse_json_networks_field net memory _ uri = none

-- A key that the object lacks is passed over.
abbrev pub optional : Option Json → (Json → Server → Option Server) → Server → Option Server
optional none parser uri = some uri
optional (some value) parser uri = parser value uri

-- The loop over `optional_fields`, in its order.
unfoldable pub optional_fields : Inet → (ℕ → SockAddr) → Fields → Server → Option Server
optional_fields net memory fields uri =
    optional (json_object_get (codes "port") fields) parse_json_port_field uri
    >>= optional (json_object_get (codes "protocol") fields) parse_json_protocol_field
    >>= optional (json_object_get (codes "priority") fields) parse_json_priority_field
    >>= optional (json_object_get (codes "interface") fields) parse_json_interface_field
    >>= optional (json_object_get (codes "dnssec") fields) parse_json_dnssec_field
    >>= optional (json_object_get (codes "ca") fields) parse_json_ca_field
    >>= optional (json_object_get (codes "name") fields) parse_json_name_field
    >>= optional (json_object_get (codes "routing_domains") fields) parse_json_domains_field
    >>= optional (json_object_get (codes "search_domains") fields) parse_json_search_domains_field
    >>= optional (json_object_get (codes "networks") fields) (parse_json_networks_field net memory)

-- The body of the loop over the array.
unfoldable pub server_of_json : Inet → (ℕ → SockAddr) → Json → Option Server
unfolding optional_fields
server_of_json net memory (object fields) =
    parse_json_address_field net (json_object_get (codes "address") fields) server_uri_t_init
    >>= optional_fields net memory fields
server_of_json net memory _ = none

unfoldable pub servers_of_items : Inet → (ℕ → SockAddr) → Items → List Server → Option (List Server)
unfolding server_of_json
servers_of_items net memory no_items list = some list
servers_of_items net memory (item value more) list =
    server_of_json net memory value >>= λ uri. servers_of_items net memory more (list ++ (uri ∷ []))

unfoldable pub servers_of_root : Inet → (ℕ → SockAddr) → Json → Option (List Server)
unfolding servers_of_items
servers_of_root net memory (array items) = servers_of_items net memory items []
servers_of_root net memory _ = none

abbrev pub or_null : Option (List Server) → List Server
or_null none = []
or_null (some l) = l

-- `loads` is `json_loads`. An error and an empty list are both NULL.
unfoldable pub server_uri_t_list_from_json :
    (Text → Option Json) → Inet → (ℕ → SockAddr) → Text → List Server
unfolding servers_of_root
server_uri_t_list_from_json loads net memory server_list =
    or_null (loads server_list >>= servers_of_root net memory)

abbrev pub name_json : Option Text → Json
name_json none = null
name_json (some name) = string name

-- The text "address/prefix" of each network.
abbrev pub network_text : Inet → NetworkAddress → Text
network_text net n = ip_text net n.address ++ (b'/' ∷ decimal n.prefix)

abbrev pub network_texts : Inet → List NetworkAddress → List Text
network_texts net [] = []
network_texts net (n ∷ l) = network_text net n ∷ network_texts net l

unfoldable pub server_fields : Inet → Server → Fields
server_fields net server =
    json_object_set_new (codes "networks") (array (strings (network_texts net server.networks))) (
      json_object_set_new (codes "dnssec") (boolean (not (server.dnssec == 0))) (
        json_object_set_new (codes "protocol") (string (dns_protocol_t_to_string server.protocol)) (
          json_object_set_new (codes "priority") (integer server.priority) (
            json_object_set_new (codes "interface")
              (if is_nil server.interface then null else string server.interface)
              (json_object_set_new (codes "search_domains") (array (strings server.search_domains))
                (json_object_set_new (codes "routing_domains")
                  (array (strings server.routing_domains))
                  (json_object_set_new (codes "name") (name_json server.name) (
                    json_object_set_new (codes "port") (integer (pos server.address.port)) (
                      json_object_set_new (codes "address") (string (ip_text net server.address))
                        no_fields)))))))))

-- The address has a known family.
unfoldable pub server_uri_to_json : Inet → Server → Json
unfolding server_fields
server_uri_to_json net server = object (server_fields net server)
