-- ===== src/Server/Uri/Laws.antt =====
-- The servers that `server_uri_t_init_from_string` of src/types/server_uri.c accepts.
pub mod Filled
use mathlib.Core.Option.{some-injective}
use dnsconfd.Prelude.{
  ℕ, ◌≡◌, ◌↔◌, ◌⊎◌, inl, inr, refl, sym, ◌∙◌, ◌≢◌, subst, Bool, true, false, ◌||◌, Option, none,
  some, List, [], ◌∷◌, ◌++◌, Text, text_eq, codes, arith, length, is_nil, leb, ltb, if◌then◌else◌,
  ◌==◌, ◌>>=◌,
}
use dnsconfd.Prelude.Int.{ℤ, pos, pos_part, ltb_ℤ}
use dnsconfd.Ip.{SockAddr, Inet, InetLaws, cleared, parse_ip_str}
use dnsconfd.Ip.Laws.{IsAddress, IsStorage, cleared-IsStorage, parse_ip_str-IsAddress}
use dnsconfd.Number.{strtol}
use dnsconfd.Network.{NetworkAddress, network_address_t_from_string}
use dnsconfd.Network.Parse.{IsNetwork, from_string-IsNetwork}
use dnsconfd.Server.{
  Server, Protocol, udp, protocols_end, protocol_eq, protocol_from_nstring, server_uri_t_init,
  ifnamsiz,
}
use dnsconfd.Server.Valid.{
  IsServer, same-IsServer, first-IsServer, with_protocol-IsServer, with_port-IsServer,
  with_interface-IsServer, with_network-IsServer, Fills, bind-Fills, if-Fills,
}
use dnsconfd.Server.Uri.{
  Uri, UriParser, query_priority, query_field, query_loop, parse_query, Filling, refused, overrun,
  filled, or_refused, inet6_addrstrlen, uri_port, uri_query, uri_rest, uri_parts,
  server_uri_t_init_from_string,
}
use dnsconfd.Server.Uri.Laws.Filled.{
  priority-Fills, port-Fills, Accepts, or_refused-Accepts, if-Accepts,
}

module _ {net : Inet} (laws : InetLaws net) (memory : ℕ → SockAddr)
    (storage : (n : ℕ) → IsStorage (memory n)) where
  network-Fills :
      (value : Text) (s : Server)
      → IsServer s
      → Fills (
          network_address_t_from_string net (memory (length s.networks)) value >>= λ n.
          some (record s { networks = s.networks ++ (n ∷ []) }))
  network-Fills value s h =
      go (network_address_t_from_string net (memory (length s.networks)) value) (λ n e.
        from_string-IsNetwork laws (memory (length s.networks)) value n
          (storage (length s.networks)) e)
    where
      go :
          (o : Option NetworkAddress)
          → ((n : NetworkAddress) → o ≡ some n → IsNetwork n)
          → Fills (o >>= λ n. some (record s { networks = s.networks ++ (n ∷ []) }))
      go none k = tt
      go (some n) k = with_network-IsServer s n (k n refl) h

  field-Fills :
      (key value : Text) (s : Server) → IsServer s → Fills (query_field net memory key value s)
  unfolding query_field
  field-Fills key value s h =
      if-Fills (text_eq key (codes "priority")) _ _ (λ _. priority-Fills value s h)
        (λ _.
          if-Fills (text_eq key (codes "domain")) _ _ (λ _. same-IsServer s _ h refl refl refl refl)
            (λ _.
              if-Fills (text_eq key (codes "search")) _ _
                (λ _. same-IsServer s _ h refl refl refl refl)
                (λ _.
                  if-Fills (text_eq key (codes "interface")) _ _
                    (λ _.
                      if-Fills (leb ifnamsiz (length value)) _ _ (λ _. tt)
                        (λ e. with_interface-IsServer s value (ground (arith, e)) h))
                    (λ _.
                      if-Fills (text_eq key (codes "dnssec")) _ _ (λ _. dnssec _)
                        (λ _.
                          if-Fills (text_eq key (codes "ca")) _ _
                            (λ _. same-IsServer s _ h refl refl refl refl)
                            (λ _.
                              if-Fills (text_eq key (codes "name")) _ _
                                (λ _. same-IsServer s _ h refl refl refl refl)
                                (λ _.
                                  if-Fills (text_eq key (codes "network")) _ _
                                    (λ _. network-Fills value s h) (λ _. h))))))))
    where
      dnssec : (b : Bool) → IsServer (if b then record s { dnssec = 0 } else s)
      dnssec true = same-IsServer s _ h refl refl refl refl
      dnssec false = h

  loop-Fills :
      (list : List (Text × Option Text)) (s : Server)
      → IsServer s
      → Fills (query_loop net memory list s)
  unfolding query_loop
  loop-Fills [] s h = h
  loop-Fills ((key, none) ∷ list) s h = tt
  loop-Fills ((key, some value) ∷ list) s h =
      bind-Fills (query_field net memory key value s) _ (field-Fills key value s h)
        (λ t k. loop-Fills list t k)

  query-Fills :
      (parser : UriParser) (u : Uri) (s : Server)
      → IsServer s
      → Fills (uri_query parser net memory u s)
  unfolding uri_query parse_query
  query-Fills parser u s h =
      if-Fills (is_nil u.query) _ _ (λ _. h) (λ _. go (parser.dissect_query u.query))
    where
      go :
          (o : Option (List (Text × Option Text)))
          → Fills (o >>= λ list. query_loop net memory list s)
      go none = tt
      go (some list) = loop-Fills list s h

  rest-Accepts :
      (parser : UriParser) (u : Uri) (p : Protocol)
      → protocol_eq p protocols_end ≡ false
      → Accepts (uri_rest parser net memory u (record server_uri_t_init { protocol = p }))
  unfolding uri_rest
  rest-Accepts parser u p h =
      if-Accepts (ltb inet6_addrstrlen (length u.host_text)) _ _ (λ _. tt)
        (λ _.
          if-Accepts (length u.host_text == inet6_addrstrlen) _ _ (λ _. tt)
            (λ _. or_refused-Accepts _ (
              go (parse_ip_str net u.host_text cleared)
                (λ a e. parse_ip_str-IsAddress laws u.host_text cleared a cleared-IsStorage e))))
    where
      go :
          (o : Option SockAddr)
          → ((a : SockAddr) → o ≡ some a → IsAddress a)
          → Fills (
              o >>= λ a.
              uri_port u (record server_uri_t_init { protocol = p; address = a })
              >>= uri_query parser net memory u)
      go none k = tt
      go (some a) k =
          bind-Fills (uri_port u (record server_uri_t_init { protocol = p; address = a })) _
            (port-Fills u _ (
              with_protocol-IsServer (record server_uri_t_init { address = a }) p h
                (first-IsServer a (k a refl))))
            (λ t l. query-Fills parser u t l)

  parts-Accepts : (parser : UriParser) (u : Uri) → Accepts (uri_parts parser net memory u)
  unfolding uri_parts
  parts-Accepts parser u =
      if-Accepts (is_nil u.scheme) _ _ (λ _. rest-Accepts parser u udp refl)
        (λ _.
          if-Accepts (protocol_eq (protocol_from_nstring u.scheme (length u.scheme)) protocols_end)
            _ _ (λ _. tt) (λ e. rest-Accepts parser u _ e))

  -- Every server that is filled from a URI has an address of a known family, a port that fits, a supported
  -- protocol, an interface name that fits, and networks whose prefix their family allows. Whatever the
  -- library makes of the text, the conversions of addresses follow their documentation, and the memory for a
  -- network is of the right size.
  pub server_uri_t_init_from_string-Accepts :
      (parser : UriParser) (text : Text)
      → Accepts (server_uri_t_init_from_string parser net memory text)
  unfolding server_uri_t_init_from_string
  server_uri_t_init_from_string-Accepts parser text = go (parser.parse_single_uri text)
    where
      go :
          (o : Option Uri)
          → Accepts (elim o [ none ↦ refused | some u ↦ uri_parts parser net memory u ])
      go none = tt
      go (some u) = parts-Accepts parser u
