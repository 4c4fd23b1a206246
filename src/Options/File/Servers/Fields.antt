-- ===== src/Options/File/Servers/Fields.antt =====
-- The keys of a static server in src/configuration_parsing/config_file.c.
use dnsconfd.Prelude.{
  ℕ, ◌≤◌, ◌≡◌, refl, subst, Bool, true, false, not, ◌&&◌, inl, inr, Option, none, some, List, [],
  ◌∷◌, ◌++◌, Text, text_eq, codes, arith, All, All-append, length, Option-cases, if◌then◌else◌,
}
use dnsconfd.Ip.{SockAddr, Inet, InetLaws, parse_ip_str}
use dnsconfd.Ip.Laws.{IsStorage, IsAddress-IsStorage, parse_ip_str-IsAddress}
use dnsconfd.Network.{NetworkAddress, network_address_t_from_string}
use dnsconfd.Network.Parse.{IsNetwork, from_string-IsNetwork}
use dnsconfd.Server.{Server, protocols_end, protocol_eq}
use dnsconfd.Config.Sound.{IsSound}
use dnsconfd.Yaml.{Event, scalar, sequence_start, sequence_end, done, failed}
use dnsconfd.Yaml.Laws.{Holds, or_fail-Holds, if-Holds}
use dnsconfd.Options.File.Servers.{
  parse_protocol_string, parse_priority_str, parse_port_str, parse_domains, parse_networks, Reading,
  server_sequence, server_field,
}
use dnsconfd.Options.File.Servers.Pending.{
  IsPending, same-IsPending, with_address-IsPending, port_str-IsStorage, priority_str-IsPending,
  ReadsOn,
}

parse_domains-length :
    (events rest : List Event) (acc l : List Text)
    → parse_domains events acc ≡ some (l, rest)
    → length rest ≤ length events
unfolding parse_domains
parse_domains-length [] rest acc l e = cc
parse_domains-length (scalar t ∷ events) rest acc l e =
    omega (arith, parse_domains-length events rest (acc ++ (t ∷ [])) l e)
parse_domains-length (sequence_end ∷ events) rest acc l e = ground arith
parse_domains-length (sequence_start ∷ events) rest acc l e =
    omega (arith, parse_domains-length events rest acc l e)
parse_domains-length (_ ∷ events) rest acc l e =
    omega (arith, parse_domains-length events rest acc l e)

module _ {net : Inet} (laws : InetLaws net) (memory : ℕ → SockAddr)
    (storage : (n : ℕ) → IsStorage (memory n)) where
  abbrev pub NetworksRead : List Event → Option (List NetworkAddress × List Event) → Type 0
  NetworksRead events none = Unit
  NetworksRead events (some (l, rest)) = All IsNetwork l × (length rest ≤ length events)

  later :
      (events : List Event) (e : Event) (o : Option (List NetworkAddress × List Event))
      → NetworksRead events o
      → NetworksRead (e ∷ events) o
  later events e none h = tt
  later events e (some (l, rest)) h = (h.0, omega (arith, h.1))

  pub parse_networks-NetworksRead :
      (events : List Event) (acc : List NetworkAddress)
      → All IsNetwork acc
      → NetworksRead events (parse_networks net memory events acc)
  unfolding parse_networks
  parse_networks-NetworksRead [] acc h = tt
  parse_networks-NetworksRead (scalar t ∷ events) acc h =
      elim (Option-cases (network_address_t_from_string net (memory (length acc)) t)) [
        | inl e ↦ rw (parse_networks, e) tt
        | inr (n, e) ↦
            rw (parse_networks, e)
              (later events (scalar t) _ (
                parse_networks-NetworksRead events (acc ++ (n ∷ [])) (
                  All-append IsNetwork acc (n ∷ []) h (
                    from_string-IsNetwork laws (memory (length acc)) t n (storage (length acc)) e,
                    tt,
                  ))))
      ]
  parse_networks-NetworksRead (sequence_end ∷ events) acc h = (h, omega arith)
  parse_networks-NetworksRead (sequence_start ∷ events) acc h =
      later events sequence_start _ (parse_networks-NetworksRead events acc h)
  parse_networks-NetworksRead (e ∷ events) acc h =
      later events e _ (parse_networks-NetworksRead events acc h)

  pub sequence-ReadsOn :
      (r : Reading) (s : Server) (key : Text) (events : List Event)
      → IsSound r.config
      → IsPending s
      → Holds (ReadsOn events) (server_sequence net memory r s key events)
  unfolding server_sequence
  sequence-ReadsOn r s key events h p =
      if-Holds (ReadsOn events) (text_eq key (codes "routing_domains")) _ _
        (λ _.
          or_fail-Holds (ReadsOn events) _ (parse_domains events s.routing_domains) _
            (λ (l, rest) e. (
              (h, same-IsPending s _ p refl refl refl refl),
              parse_domains-length events rest s.routing_domains l e,
            )))
        (λ _.
          if-Holds (ReadsOn events) (text_eq key (codes "search_domains")) _ _
            (λ _.
              or_fail-Holds (ReadsOn events) _ (parse_domains events s.search_domains) _
                (λ (l, rest) e. (
                  (h, same-IsPending s _ p refl refl refl refl),
                  parse_domains-length events rest s.search_domains l e,
                )))
            (λ _.
              if-Holds (ReadsOn events) (text_eq key (codes "networks")) _ _
                (λ _.
                  or_fail-Holds (ReadsOn events) _ (parse_networks net memory events s.networks) _
                    (λ (l, rest) e.
                      let k =
                        subst (NetworksRead events) e
                          (parse_networks-NetworksRead events s.networks p.networks_fit) in
                      ((h, with_networks l k.0), k.1)))
                (λ _. tt)))
    where
      with_networks :
          (l : List NetworkAddress) → All IsNetwork l → IsPending (record s { networks = l })
      with_networks l k = record {
        stored = p.stored;
        networks_fit = k;
        interface_fits = p.interface_fits;
        supported = p.supported;
      }

  pub field-IsPending :
      (s : Server) (key value : Text) → IsPending s → Holds IsPending (server_field net s key value)
  unfolding server_field
  field-IsPending s key value h =
      if-Holds IsPending (text_eq key (codes "name")) _ _
        (λ _. same-IsPending s _ h refl refl refl refl)
        (λ _.
          if-Holds IsPending (text_eq key (codes "protocol")) _ _ (λ _. protocol)
            (λ _.
              if-Holds IsPending (text_eq key (codes "address")) _ _
                (λ _. or_fail-Holds IsPending _ (parse_ip_str net value s.address) _ (λ a e.
                  with_address-IsPending s a
                    (IsAddress-IsStorage a
                      (parse_ip_str-IsAddress laws value s.address a h.stored e))
                    h))
                (λ _.
                  if-Holds IsPending (text_eq key (codes "port")) _ _
                    (λ _. or_fail-Holds IsPending _ (parse_port_str value s.address) _ (λ a e.
                      with_address-IsPending s a (port_str-IsStorage value s.address a e h.stored)
                        h))
                    (λ _.
                      if-Holds IsPending (text_eq key (codes "dnssec")) _ _
                        (λ _.
                          dnssec
                            (not (text_eq value (codes "1")) && not (text_eq value (codes "yes"))))
                        (λ _.
                          if-Holds IsPending (text_eq key (codes "priority")) _ _
                            (λ _.
                              or_fail-Holds IsPending _ (parse_priority_str value s) _
                                (λ t e. priority_str-IsPending value s t e h))
                            (λ _. tt))))))
    where
      protocol : Holds IsPending (
          if protocol_eq (parse_protocol_string value) protocols_end
          then failed none
          else done (record s { protocol = parse_protocol_string value }))
      protocol =
          if-Holds IsPending (protocol_eq (parse_protocol_string value) protocols_end) _ _ (λ _. tt)
            (λ e. record {
              stored = h.stored;
              networks_fit = h.networks_fit;
              interface_fits = h.interface_fits;
              supported = e;
            })

      dnssec : (b : Bool) → IsPending (if b then record s { dnssec = 0 } else s)
      dnssec true = same-IsPending s _ h refl refl refl refl
      dnssec false = h
