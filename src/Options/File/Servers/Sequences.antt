-- ===== src/Options/File/Servers/Sequences.antt =====
-- The sequences in `parse_static_servers` of src/configuration_parsing/config_file.c, on the events of a
-- list of values.
use mathlib.Core.List.{append_assoc, append-nil}
use dnsconfd.Prelude.{
  Bool-cases, inl, inr, ℕ, ◌≡◌, refl, ap, sym, ◌∙◌, false, Option, none, some, List, [], ◌∷◌, ◌++◌,
  Text, text_eq, codes, length,
}
use dnsconfd.Ip.{SockAddr, Inet}
use dnsconfd.Network.{NetworkAddress, network_address_t_from_string}
use dnsconfd.Server.{Server}
use dnsconfd.Config.{Config}
use dnsconfd.Yaml.{Event, sequence_end, done, on_done, or_fail}
use dnsconfd.Options.File.Servers.{
  parse_domains, parse_networks, Reading, with_server, server_sequence,
}
use dnsconfd.Options.File.Servers.Entries.{scalars, networks_of, entry_meaning, sequence}

domains_lem :
    (l before : List Text) (rest : List Event)
    → parse_domains (scalars l (sequence_end ∷ rest)) before ≡ some (before ++ l, rest)
unfolding parse_domains
domains_lem [] before rest = ap (λ x. some (x, rest)) (sym (append-nil before))
domains_lem (t ∷ l) before rest =
    domains_lem l (before ++ (t ∷ [])) rest
    ∙ ap (λ x. some (x, rest)) (append_assoc before (t ∷ []) l)

abbrev with_rest :
    List Event → Option (List NetworkAddress) → Option (List NetworkAddress × List Event)
with_rest rest none = none
with_rest rest (some l) = some (l, rest)

networks_lem :
    (net : Inet) (memory : ℕ → SockAddr) (l : List Text) (before : List NetworkAddress)
    (rest : List Event)
    → parse_networks net memory (scalars l (sequence_end ∷ rest)) before
      ≡ with_rest rest (networks_of net memory l before)
unfolding parse_networks
networks_lem net memory [] before rest = refl
networks_lem net memory (t ∷ l) before rest =
    go (network_address_t_from_string net (memory (length before)) t)
      (λ n. networks_lem net memory l (before ++ (n ∷ [])) rest)
  where
    go :
        (o : Option NetworkAddress)
        → ((n : NetworkAddress)
            → parse_networks net memory (scalars l (sequence_end ∷ rest)) (before ++ (n ∷ []))
              ≡ with_rest rest (networks_of net memory l (before ++ (n ∷ []))))
        → elim o [
          | none ↦ none
          | some n ↦
              parse_networks net memory (scalars l (sequence_end ∷ rest)) (before ++ (n ∷ []))
        ]
          ≡ with_rest rest
              (elim o [ none ↦ none | some n ↦ networks_of net memory l (before ++ (n ∷ [])) ])
    go none h = refl
    go (some n) h = h n

read_networks_lem :
    (net : Inet) (memory : ℕ → SockAddr) (r : Reading) (s : Server) (l : List Text)
    (rest : List Event) (message : Text)
    → or_fail {B = Reading × List Event} message
        (parse_networks net memory (scalars l (sequence_end ∷ rest)) s.networks)
        (λ (ns, more). done (with_server r (record s { networks = ns }), more))
      ≡ on_done
          (or_fail message
            (networks_of net memory l s.networks)
            (λ ns. done (record s { networks = ns })))
          (λ t. done (with_server r t, rest))
read_networks_lem net memory r s l rest message =
    rw (networks_lem net memory l s.networks rest) (go (networks_of net memory l s.networks))
  where
    go :
        (o : Option (List NetworkAddress))
        → or_fail {B = Reading × List Event} message
            (with_rest rest o)
            (λ (ns, more). done (with_server r (record s { networks = ns }), more))
          ≡ on_done
              (or_fail message o (λ ns. done (record s { networks = ns })))
              (λ t. done (with_server r t, rest))
    go none = refl
    go (some ns) = refl

pub sequence_lem :
    (net : Inet) (memory : ℕ → SockAddr) (r : Reading) (s : Server) (key : Text) (l : List Text)
    (rest : List Event)
    → server_sequence net memory r s key (scalars l (sequence_end ∷ rest))
      ≡ on_done (entry_meaning net memory (sequence key l) s) (λ t. done (with_server r t, rest))
unfolding server_sequence
sequence_lem net memory r s key l rest = elim (Bool-cases (text_eq key (codes "routing_domains"))) [
  | inl e ↦ rw (e, domains_lem l s.routing_domains rest) refl
  | inr e ↦ elim (Bool-cases (text_eq key (codes "search_domains"))) [
    | inl f ↦ rw (e, f, domains_lem l s.search_domains rest) refl
    | inr f ↦ elim (Bool-cases (text_eq key (codes "networks"))) [
      | inl g ↦ rw (e, f, g) (read_networks_lem net memory r s l rest _)
      | inr g ↦ rw (e, f, g) refl
    ]
  ]
]

-- The loop behind a key.
abbrev pub keyed : Config → Server → Text → Reading
keyed config s key = record {
  config = config;
  current_server = some s;
  current_key = some key;
  expect_key = false;
}
