-- ===== src/Daemon/Update/Laws.antt =====
-- What holds of the servers that `handle_update_call` of src/dbus_server.c accepts.
use dnsconfd.Prelude.{
  ℕ, ◌<◌, ◌≡◌, refl, ◌||◌, inl, inr, Option, none, some, List, [], ◌∷◌, ◌++◌, Text, arith, All,
  length, Bool-cases, Option-cases, ◌==◌, leb,
}
use dnsconfd.Prelude.Int.{ℤ, pos, pos_part, ltb_ℤ}
use dnsconfd.Ip.{InetLaws, cleared, parse_ip_str}
use dnsconfd.Ip.Laws.{
  IsStorage, cleared-IsStorage, cleared-IsAddress4, cleared-IsAddress6, parse_ip_str-IsAddress,
  set_default_port-IsAddress, set_default_port_ne,
}
use dnsconfd.Network.{NetworkAddress, network_address_t_from_string}
use dnsconfd.Network.Parse.{from_string-IsNetwork}
use dnsconfd.Server.{
  Server, server_uri_t_init, protocols_end, protocol_eq, ifnamsiz, protocol_from_nstring,
}
use dnsconfd.Server.Valid.{
  IsServer, IsComplete, same-IsServer, with_port-IsServer, with_protocol-IsServer,
  with_interface-IsServer, with_network-IsServer, first-IsServer,
}
use dnsconfd.Daemon.Update.{
  Parsed, error, parsed, then_parse, ServerDict, Host, parse_address, parse_address_in, parse_port,
  parse_priority, parse_protocol, parse_interface, parse_dnssec, parse_ca, parse_name, save_domains,
  parse_domains, parse_search, read_network, parse_networks, field, parse_fields, with_defaults,
  parse_server,
}

-- If it succeeds, the result has the property.
abbrev pub Yields : (Server → Type 0) → Parsed Server → Type 0
Yields P (error e) = Unit
Yields P (parsed s) = P s

-- The bytes of an address are bytes.
abbrev pub HasBytes : Option Text → Type 0
HasBytes none = Unit
HasBytes (some t) = All (λ b. b < 256) t

then_parse-Yields :
    (P Q : Server → Type 0) (r : Parsed Server) (f : Server → Parsed Server)
    → Yields P r
    → ((s : Server) → P s → Yields Q (f s))
    → Yields Q (then_parse r f)
then_parse-Yields P Q (error e) f h g = tt
then_parse-Yields P Q (parsed s) f h g = g s h

field-Yields :
    {A : Type 0} (o : Option A) (parser : A → Server → Parsed Server) (s : Server)
    → ((v : A) → Yields IsServer (parser v s))
    → IsServer s
    → Yields IsServer (field o parser s)
field-Yields none parser s f h = h
field-Yields (some v) parser s f h = f v

parse_port-IsServer : (v : ℤ) (s : Server) → IsServer s → Yields IsServer (parse_port v s)
unfolding parse_port
parse_port-IsServer v s h = elim (Bool-cases (ltb_ℤ v (pos 0) || ltb_ℤ (pos 65535) v)) [
  | inl e ↦ rw e tt
  | inr e ↦ rw e (with_port-IsServer s (pos_part v) (ground (arith, e)) h)
]

parse_protocol-IsServer :
    (v : Text) (s : Server) → IsServer s → Yields IsServer (parse_protocol v s)
unfolding parse_protocol
parse_protocol-IsServer v s h =
    elim (Bool-cases (protocol_eq (protocol_from_nstring v (length v)) protocols_end)) [
      | inl e ↦ rw e tt
      | inr e ↦ rw e (with_protocol-IsServer s (protocol_from_nstring v (length v)) e h)
    ]

parse_interface-IsServer :
    (v : Text) (s : Server) → IsServer s → Yields IsServer (parse_interface v s)
unfolding parse_interface
parse_interface-IsServer v s h = elim (Bool-cases (leb ifnamsiz (length v))) [
  | inl e ↦ rw e tt
  | inr e ↦ rw e (with_interface-IsServer s v (ground (arith, e)) h)
]

module _ (host : Host) (laws : InetLaws host.net)
    (storage : (n : ℕ) → IsStorage (host.memory n)) where
  parse_networks-IsServer :
      (ts : List Text) (s : Server) → IsServer s → Yields IsServer (parse_networks host ts s)
  unfolding parse_networks
  parse_networks-IsServer [] s h = h
  parse_networks-IsServer (t ∷ ts) s h =
      go (network_address_t_from_string host.net (host.memory (length s.networks)) t) (λ n e.
        parse_networks-IsServer ts (record s { networks = s.networks ++ (n ∷ []) })
          (with_network-IsServer s n
            (from_string-IsNetwork laws (host.memory (length s.networks)) t n
              (storage (length s.networks)) e)
            h))
    where
      go :
          (o : Option NetworkAddress)
          → ((n : NetworkAddress)
              → o ≡ some n
              → Yields IsServer
                  (parse_networks host ts (record s { networks = s.networks ++ (n ∷ []) })))
          → Yields IsServer (
              then_parse
                (read_network o)
                (λ n. parse_networks host ts (record s { networks = s.networks ++ (n ∷ []) })))
      go none f = tt
      go (some n) f = f n refl

  parse_address-IsServer :
      (dict : ServerDict)
      → HasBytes dict.address_bytes
      → Yields IsServer (parse_address host.net dict server_uri_t_init)
  unfolding parse_address
  parse_address-IsServer dict h = go dict.address_string dict.address_bytes h
    where
      at_bytes :
          (b : Text)
          → All (λ c. c < 256) b
          → Yields IsServer (parse_address_in host.net none (some b) server_uri_t_init)
      at_bytes b h = elim (Bool-cases (length b == 4)) [
        | inl e ↦
            unfold parse_address_in in
            rw e (first-IsServer _ (cleared-IsAddress4 b (ground (arith, e)) h))
        | inr e ↦ elim (Bool-cases (length b == 16)) [
          | inl f ↦
              unfold parse_address_in in
              rw (e, f) (first-IsServer _ (cleared-IsAddress6 b (ground (arith, f)) h))
          | inr f ↦ unfold parse_address_in in rw (e, f) tt
        ]
      ]

      go :
          (t : Option Text) (b : Option Text)
          → HasBytes b
          → Yields IsServer (parse_address_in host.net t b server_uri_t_init)
      go (some t) b h = elim (Option-cases (parse_ip_str host.net t cleared)) [
        | inl e ↦ unfold parse_address_in in rw e tt
        | inr (a, e) ↦
            unfold parse_address_in in
            rw e (first-IsServer a (parse_ip_str-IsAddress laws t cleared a cleared-IsStorage e))
      ]
      go none (some b) h = at_bytes b h
      go none none h = unfold parse_address_in in tt

  domains-IsServer :
      (v : List Text) (s : Server) → IsServer s → Yields IsServer (parse_domains host v s)
  unfolding parse_domains
  domains-IsServer v s h = go (save_domains host v s.routing_domains)
    where
      go :
          (r : Parsed (List Text))
          → Yields IsServer (then_parse r (λ l. parsed (record s { routing_domains = l })))
      go (error e) = tt
      go (parsed l) = same-IsServer s (record s { routing_domains = l }) h refl refl refl refl

  search-IsServer :
      (v : List Text) (s : Server) → IsServer s → Yields IsServer (parse_search host v s)
  unfolding parse_search
  search-IsServer v s h = go (save_domains host v s.search_domains)
    where
      go :
          (r : Parsed (List Text))
          → Yields IsServer (then_parse r (λ l. parsed (record s { search_domains = l })))
      go (error e) = tt
      go (parsed l) = same-IsServer s (record s { search_domains = l }) h refl refl refl refl

  parse_fields-IsServer :
      (dict : ServerDict) (s : Server) → IsServer s → Yields IsServer (parse_fields host dict s)
  unfolding parse_fields
  parse_fields-IsServer dict s h =
      next_field dict.port parse_port s _ (λ v. parse_port-IsServer v s h) h
        λ s1 h1.
          next_field dict.priority parse_priority s1 _
            (λ v. unfold parse_priority in same-IsServer s1 _ h1 refl refl refl refl) h1
            λ s2 h2.
              next_field dict.protocol parse_protocol s2 _ (λ v. parse_protocol-IsServer v s2 h2) h2
                λ s3 h3.
                  next_field dict.interface parse_interface s3 _
                    (λ v. parse_interface-IsServer v s3 h3) h3
                    λ s4 h4.
                      next_field dict.dnssec parse_dnssec s4 _
                        (λ v. unfold parse_dnssec in same-IsServer s4 _ h4 refl refl refl refl) h4
                        λ s5 h5.
                          next_field dict.ca parse_ca s5 _
                            (λ v. unfold parse_ca in same-IsServer s5 _ h5 refl refl refl refl) h5
                            λ s6 h6.
                              next_field dict.name parse_name s6 _
                                (λ v.
                                  unfold parse_name in same-IsServer s6 _ h6 refl refl refl refl)
                                h6
                                λ s7 h7.
                                  next_field dict.routing_domains (parse_domains host) s7 _
                                    (λ v. domains-IsServer v s7 h7) h7
                                    λ s8 h8.
                                      next_field dict.search_domains (parse_search host) s8 _
                                        (λ v. search-IsServer v s8 h8) h8
                                        λ s9 h9.
                                          field-Yields dict.networks (parse_networks host) s9
                                            (λ v. parse_networks-IsServer v s9 h9) h9
    where
      next_field :
          {A : Type 0} (o : Option A) (parser : A → Server → Parsed Server) (s : Server)
          (f : Server → Parsed Server)
          → ((v : A) → Yields IsServer (parser v s))
          → IsServer s
          → ((t : Server) → IsServer t → Yields IsServer (f t))
          → Yields IsServer (then_parse (field o parser s) f)
      next_field o parser s f k h g =
          then_parse-Yields IsServer IsServer (field o parser s) f (field-Yields o parser s k h) g

  with_defaults-IsComplete : (s : Server) → IsServer s → IsComplete (with_defaults s)
  unfolding with_defaults
  with_defaults-IsComplete s h = record {
    server = record {
      addressed = set_default_port-IsAddress s.address _ (ground arith) h.addressed;
      networks_fit = h.networks_fit;
      interface_fits = h.interface_fits;
      supported = h.supported;
    };
    port_pos = set_default_port_ne s.address _ (ground arith) h.addressed;
    has_domain = ground arith;
  }

  pub parse_server-IsComplete :
      (dict : ServerDict) → HasBytes dict.address_bytes → Yields IsComplete (parse_server host dict)
  unfolding parse_server
  parse_server-IsComplete dict h =
      then_parse-Yields IsServer IsComplete (parse_address host.net dict server_uri_t_init) _
        (parse_address-IsServer dict h)
        λ s hs.
          then_parse-Yields IsServer IsComplete (parse_fields host dict s) _
            (parse_fields-IsServer dict s hs) λ t ht. with_defaults-IsComplete t ht
