-- ===== src/Server/Json/Keys.antt =====
-- The values under the keys of the object that `server_uri_to_json` of src/types/server_uri.c builds.
use dnsconfd.Prelude.{◌≡◌, refl, not, none, some, text_eq, codes, is_nil, if◌then◌else◌, ◌==◌}
use dnsconfd.Prelude.Int.{pos}
use dnsconfd.Ip.{Inet, ip_text}
use dnsconfd.Server.{Server, dns_protocol_t_to_string}
use dnsconfd.Json.{
  null, integer, boolean, string, array, strings, json_object_get, json_object_set_new,
}
use dnsconfd.Server.Json.{network_texts, server_fields, name_json}

-- The values under the keys of the object.
module _ (net : Inet) (s : Server) where
  pub get_address :
      json_object_get (codes "address") (server_fields net s)
      ≡ some (string (ip_text net s.address))
  unfolding json_object_get json_object_set_new server_fields text_eq
  get_address = refl

  pub get_port :
      json_object_get (codes "port") (server_fields net s) ≡ some (integer (pos s.address.port))
  unfolding json_object_get json_object_set_new server_fields text_eq
  get_port = refl

  pub get_protocol :
      json_object_get (codes "protocol") (server_fields net s)
      ≡ some (string (dns_protocol_t_to_string s.protocol))
  unfolding json_object_get json_object_set_new server_fields text_eq
  get_protocol = refl

  pub get_priority :
      json_object_get (codes "priority") (server_fields net s) ≡ some (integer s.priority)
  unfolding json_object_get json_object_set_new server_fields text_eq
  get_priority = refl

  pub get_interface :
      json_object_get (codes "interface") (server_fields net s)
      ≡ some (if is_nil s.interface then null else string s.interface)
  unfolding json_object_get json_object_set_new server_fields text_eq
  get_interface = refl

  pub get_dnssec :
      json_object_get (codes "dnssec") (server_fields net s) ≡ some (boolean (not (s.dnssec == 0)))
  unfolding json_object_get json_object_set_new server_fields text_eq
  get_dnssec = refl

  pub get_ca : json_object_get (codes "ca") (server_fields net s) ≡ none
  unfolding json_object_get json_object_set_new server_fields text_eq
  get_ca = refl

  pub get_name : json_object_get (codes "name") (server_fields net s) ≡ some (name_json s.name)
  unfolding json_object_get json_object_set_new server_fields text_eq
  get_name = refl

  pub get_routing :
      json_object_get (codes "routing_domains") (server_fields net s)
      ≡ some (array (strings s.routing_domains))
  unfolding json_object_get json_object_set_new server_fields text_eq
  get_routing = refl

  pub get_search :
      json_object_get (codes "search_domains") (server_fields net s)
      ≡ some (array (strings s.search_domains))
  unfolding json_object_get json_object_set_new server_fields text_eq
  get_search = refl

  pub get_networks :
      json_object_get (codes "networks") (server_fields net s)
      ≡ some (array (strings (network_texts net s.networks)))
  unfolding json_object_get json_object_set_new server_fields text_eq
  get_networks = refl
