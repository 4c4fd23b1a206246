-- ===== src/Server/Json/Laws.antt =====
-- The servers that `server_uri_t_list_from_json` of src/types/server_uri.c accepts.
use dnsconfd.Prelude.{
  ℕ, ◌≡◌, refl, inl, inr, Option, none, some, List, [], ◌∷◌, ◌++◌, Text, codes, All, All-append,
  length, Option-cases, ◌>>=◌,
}
use dnsconfd.Ip.{SockAddr, Inet, InetLaws, cleared, parse_ip_str}
use dnsconfd.Ip.Laws.{IsStorage, cleared-IsStorage, parse_ip_str-IsAddress}
use dnsconfd.Network.{NetworkAddress, network_address_t_from_string}
use dnsconfd.Network.Parse.{from_string-IsNetwork}
use dnsconfd.Server.{Server, server_uri_t_init}
use dnsconfd.Server.Valid.{Fills, bind-Fills, IsServer, with_network-IsServer, first-IsServer}
use dnsconfd.Json.{
  Json, null, string, array, object, Items, no_items, item, Fields, json_object_get,
}
use dnsconfd.Server.Json.{
  parse_json_port_field, parse_json_address_field, parse_json_protocol_field,
  parse_json_priority_field, parse_json_interface_field, parse_json_dnssec_field,
  parse_json_ca_field, parse_json_name_field, parse_json_domains_field,
  parse_json_search_domains_field, append_json_networks, parse_json_networks_field, optional,
  optional_fields, server_of_json, servers_of_items, servers_of_root, server_uri_t_list_from_json,
  or_null,
}
use dnsconfd.Server.Json.Values.{
  optional-Fills, port-Fills, protocol-Fills, priority-Fills, interface-Fills, dnssec-Fills,
  ca-Fills, name-Fills, domains-Fills, search_domains-Fills,
}

module _ {net : Inet} (laws : InetLaws net) (memory : ℕ → SockAddr)
    (storage : (n : ℕ) → IsStorage (memory n)) where
  append_json_networks-Fills :
      (items : Items) (s : Server) → IsServer s → Fills (append_json_networks net memory items s)
  unfolding append_json_networks
  append_json_networks-Fills no_items s h = h
  append_json_networks-Fills (item (string t) more) s h =
      go (network_address_t_from_string net (memory (length s.networks)) t) (λ n e.
        append_json_networks-Fills more (record s { networks = s.networks ++ (n ∷ []) })
          (with_network-IsServer s n
            (from_string-IsNetwork laws (memory (length s.networks)) t n
              (storage (length s.networks)) e)
            h))
    where
      go :
          (o : Option NetworkAddress)
          → ((n : NetworkAddress)
              → o ≡ some n
              → Fills (
                  append_json_networks net memory more
                    (record s { networks = s.networks ++ (n ∷ []) })))
          → Fills (
              o >>= λ n.
              append_json_networks net memory more (record s { networks = s.networks ++ (n ∷ []) }))
      go none f = tt
      go (some n) f = f n refl
  append_json_networks-Fills (item null more) s h = tt
  append_json_networks-Fills (item _ more) s h = tt

  networks-Fills :
      (v : Json) (s : Server) → IsServer s → Fills (parse_json_networks_field net memory v s)
  unfolding parse_json_networks_field
  networks-Fills (array items) s h = append_json_networks-Fills items s h
  networks-Fills null s h = tt
  networks-Fills _ s h = tt

  address-Fills : (o : Option Json) → Fills (parse_json_address_field net o server_uri_t_init)
  unfolding parse_json_address_field
  address-Fills (some (string t)) = elim (Option-cases (parse_ip_str net t cleared)) [
    | inl e ↦ rw e tt
    | inr (a, e) ↦
        rw e (first-IsServer a (parse_ip_str-IsAddress laws t cleared a cleared-IsStorage e))
  ]
  address-Fills none = tt
  address-Fills (some null) = tt
  address-Fills (some _) = tt

  optional_fields-Fills :
      (m : Fields) (s : Server) → IsServer s → Fills (optional_fields net memory m s)
  unfolding optional_fields
  optional_fields-Fills m s h =
      next (codes "networks") (parse_json_networks_field net memory) networks-Fills _ (
        next (codes "search_domains") parse_json_search_domains_field search_domains-Fills _ (
          next (codes "routing_domains") parse_json_domains_field domains-Fills _ (
            next (codes "name") parse_json_name_field name-Fills _ (
              next (codes "ca") parse_json_ca_field ca-Fills _ (
                next (codes "dnssec") parse_json_dnssec_field dnssec-Fills _ (
                  next (codes "interface") parse_json_interface_field interface-Fills _ (
                    next (codes "priority") parse_json_priority_field priority-Fills _ (
                      next (codes "protocol") parse_json_protocol_field protocol-Fills _ (
                        optional-Fills (json_object_get (codes "port") m) parse_json_port_field
                          port-Fills s h)))))))))
    where
      next :
          (key : Text) (parser : Json → Server → Option Server)
          → ((v : Json) (t : Server) → IsServer t → Fills (parser v t))
          → (o : Option Server) → Fills o
          → Fills (o >>= optional (json_object_get key m) parser)
      next key parser f o k =
          bind-Fills o (optional (json_object_get key m) parser) k
            (λ t l. optional-Fills (json_object_get key m) parser f t l)

  server_of_json-Fills : (v : Json) → Fills (server_of_json net memory v)
  unfolding server_of_json
  server_of_json-Fills (object m) =
      bind-Fills
        (parse_json_address_field net (json_object_get (codes "address") m) server_uri_t_init) _
        (address-Fills (json_object_get (codes "address") m)) (λ s h. optional_fields-Fills m s h)
  server_of_json-Fills null = tt
  server_of_json-Fills _ = tt

  abbrev AllIfSome : Option (List Server) → Type 0
  AllIfSome none = Unit
  AllIfSome (some l) = All IsServer l

  servers_of_items-All :
      (items : Items) (l : List Server)
      → All IsServer l
      → AllIfSome (servers_of_items net memory items l)
  unfolding servers_of_items
  servers_of_items-All no_items l h = h
  servers_of_items-All (item v more) l h =
      go (server_of_json net memory v) (server_of_json-Fills v) (λ s k.
        servers_of_items-All more (l ++ (s ∷ [])) (All-append IsServer l (s ∷ []) h (k, tt)))
    where
      go :
          (o : Option Server)
          → Fills o
          → ((s : Server)
              → IsServer s
              → AllIfSome (servers_of_items net memory more (l ++ (s ∷ []))))
          → AllIfSome (o >>= λ s. servers_of_items net memory more (l ++ (s ∷ [])))
      go none k f = tt
      go (some s) k f = f s k

  -- Every server that is read from a JSON text has an address of a known family, a port, an interface name
  -- that fits, a supported protocol, and networks whose prefix their family allows. Whatever
  -- `json_loads` makes of the text, the conversions of addresses follow their documentation, and the
  -- memory for a network is of the right size.
  pub server_uri_t_list_from_json-All :
      (loads : Text → Option Json) (text : Text)
      → All IsServer (server_uri_t_list_from_json loads net memory text)
  unfolding server_uri_t_list_from_json servers_of_root
  server_uri_t_list_from_json-All loads text = go (loads text)
    where
      listed : (o : Option (List Server)) → AllIfSome o → All IsServer (or_null o)
      listed none h = tt
      listed (some l) h = h

      go : (o : Option Json) → All IsServer (or_null (o >>= servers_of_root net memory))
      go none = tt
      go (some (array items)) =
          listed (servers_of_items net memory items []) (servers_of_items-All items [] tt)
      go (some null) = tt
      go (some _) = tt
