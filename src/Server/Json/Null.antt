-- ===== src/Server/Json/Null.antt =====
-- A server without a name or an interface in the JSON of src/types/server_uri.c.
use dnsconfd.Prelude.{ℕ, ◌≡◌, refl, true, ◌⊎◌, inl, inr, Option, none, some, codes, is_nil, ◌>>=◌}
use dnsconfd.Ip.{SockAddr, Inet}
use dnsconfd.Server.{Server, server_uri_t_init}
use dnsconfd.Json.{json_object_get}
use dnsconfd.Server.Json.{
  parse_json_address_field, parse_json_interface_field, parse_json_name_field, optional,
  optional_fields, server_of_json, server_fields, server_uri_to_json,
}
use dnsconfd.Server.Json.Keys.{get_interface, get_name}

-- A step that fails on every server.
fails :
    (o : Option Server) (f : Server → Option Server)
    → ((u : Server) → f u ≡ none)
    → (o >>= f) ≡ none
fails none f h = refl
fails (some u) f h = h u

module _ (net : Inet) (memory : ℕ → SockAddr) where
  nameless :
      (s : Server) (o : Option Server)
      → s.name ≡ none
      → (o
          >>= optional (json_object_get (codes "name") (server_fields net s)) parse_json_name_field)
        ≡ none
  unfolding parse_json_name_field
  nameless s o h = fails o _ (λ u. rw (get_name net s, h) refl)

  unbound_server :
      (s : Server) (o : Option Server)
      → is_nil s.interface ≡ true
      → (o
          >>= optional
              (json_object_get (codes "interface") (server_fields net s))
              parse_json_interface_field)
        ≡ none
  unfolding parse_json_interface_field
  unbound_server s o h = fails o _ (λ u. rw (get_interface net s, h) refl)

  optional_fields-null :
      (s u : Server)
      → (s.name ≡ none) ⊎ (is_nil s.interface ≡ true)
      → optional_fields net memory (server_fields net s) u ≡ none
  unfolding optional_fields
  optional_fields-null s u (inl e) = rw (nameless s _ e) refl
  optional_fields-null s u (inr e) = rw (unbound_server s _ e) refl

  -- A server without a name or without an interface that is printed as JSON is not read back: the null
  -- that stands for either makes the reading fail.
  pub server_of_json-null :
      (s : Server)
      → (s.name ≡ none) ⊎ (is_nil s.interface ≡ true)
      → server_of_json net memory (server_uri_to_json net s) ≡ none
  unfolding server_of_json server_uri_to_json
  server_of_json-null s h =
      fails
        (parse_json_address_field net (json_object_get (codes "address") (server_fields net s))
          server_uri_t_init)
        _ (λ u. optional_fields-null s u h)
