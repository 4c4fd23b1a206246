-- ===== src/Options/File/Servers/Meaning.antt =====
-- `parse_static_servers` of src/configuration_parsing/config_file.c on the events of a sequence of mappings.
use dnsconfd.Prelude.{
  Bool-cases, inl, inr, ℕ, suc, ◌+◌, ◌-◌, ◌≤◌, ◌≡◌, refl, ◌∙◌, subst, List, [], ◌∷◌, Text, arith,
  length,
}
use dnsconfd.Ip.{SockAddr, Inet, family_eq, unspec}
use dnsconfd.Server.{Server, server_uri_t_init}
use dnsconfd.Config.{Config}
use dnsconfd.Yaml.{Event, sequence_end, mapping_end, Outcome, done, failed, exhausted, on_done}
use dnsconfd.Options.File.Servers.{
  with_server, server_field, server_end, server_scalar, server_event, servers_loop,
  parse_static_servers,
}
use dnsconfd.Options.File.Servers.Entries.{
  Entry, scalars, entry_events, static_events, entry_meaning, entries_meaning, between, inside,
  servers_meaning, value, sequence,
}
use dnsconfd.Options.File.Servers.Sequences.{sequence_lem, keyed}

-- The fuel that the entries take.
abbrev steps : List Entry → ℕ → ℕ
steps [] f = f
steps (e ∷ entries) f = suc (suc (steps entries f))

abbrev all_steps : List (List Entry) → ℕ → ℕ
all_steps [] f = f
all_steps (entries ∷ servers) f = suc (steps entries (suc (all_steps servers f)))

steps_add : (entries : List Entry) (f : ℕ) → steps entries f ≡ f + steps entries 0
steps_add [] f = omega arith
steps_add (e ∷ entries) f = omega (arith, steps_add entries f)

all_steps_add :
    (servers : List (List Entry)) (f : ℕ) → all_steps servers f ≡ f + all_steps servers 0
all_steps_add [] f = omega arith
all_steps_add (entries ∷ servers) f = omega (
  arith,
  all_steps_add servers f,
  steps_add entries (suc (all_steps servers f)),
  steps_add entries (suc (all_steps servers 0)),
)

scalars-length : (l : List Text) (rest : List Event) → length rest ≤ length (scalars l rest)
scalars-length [] rest = omega arith
scalars-length (t ∷ l) rest = omega (arith, scalars-length l rest)

entry_events-length :
    (entries : List Entry) (rest : List Event)
    → steps entries (length rest) ≤ length (entry_events entries rest)
entry_events-length [] rest = omega arith
entry_events-length (value key t ∷ entries) rest = omega (arith, entry_events-length entries rest)
entry_events-length (sequence key l ∷ entries) rest = omega (
  arith,
  entry_events-length entries rest,
  scalars-length l (sequence_end ∷ entry_events entries rest),
)

static_events-length :
    (servers : List (List Entry)) (rest : List Event)
    → all_steps servers 0 ≤ length (static_events servers rest)
static_events-length [] rest = omega arith
static_events-length (entries ∷ servers) rest = omega (
  arith,
  static_events-length servers rest,
  entry_events-length entries (mapping_end ∷ static_events servers rest),
  steps_add entries (length (mapping_end ∷ static_events servers rest)),
  steps_add entries (suc (all_steps servers 0)),
)

module _ (net : Inet) (memory : ℕ → SockAddr) where
  abbrev Continues : List Entry → ℕ → List Event → Config → Type 0
  Continues entries f rest config =
      (u : Server)
      → servers_loop net memory (steps entries f) (entry_events entries rest) (inside config u)
        ≡ on_done (entries_meaning net memory entries u)
            (λ t. servers_loop net memory f rest (inside config t))

  entry_lem :
      (o : Outcome Server) (entries : List Entry) (f : ℕ) (rest : List Event) (config : Config)
      → Continues entries f rest config
      → on_done
          (on_done
            (on_done o (λ u. done (inside config u)))
            (λ r. done (r, entry_events entries rest)))
          (λ (r, more). servers_loop net memory (steps entries f) more r)
        ≡ on_done
            (on_done o (λ u. entries_meaning net memory entries u))
            (λ t. servers_loop net memory f rest (inside config t))
  entry_lem (done u) entries f rest config h = h u
  entry_lem (failed e) entries f rest config h = refl
  entry_lem exhausted entries f rest config h = refl

  read_lem :
      (o : Outcome Server) (entries : List Entry) (f : ℕ) (rest : List Event) (config : Config)
      (s : Server) (key : Text)
      → Continues entries f rest config
      → on_done
          (on_done o (λ t. done (with_server (keyed config s key) t, entry_events entries rest)))
          (λ (r, more). servers_loop net memory (steps entries f) more r)
        ≡ on_done
            (on_done o (λ u. entries_meaning net memory entries u))
            (λ t. servers_loop net memory f rest (inside config t))
  read_lem (done u) entries f rest config s key h = h u
  read_lem (failed e) entries f rest config s key h = refl
  read_lem exhausted entries f rest config s key h = refl

  entries_lem :
      (entries : List Entry) (f : ℕ) (rest : List Event) (config : Config) (s : Server)
      → servers_loop net memory (steps entries f) (entry_events entries rest) (inside config s)
        ≡ on_done
            (entries_meaning net memory entries s)
            (λ t. servers_loop net memory f rest (inside config t))
  unfolding servers_loop server_event server_scalar
  entries_lem [] f rest config s = refl
  entries_lem (value key t ∷ entries) f rest config s =
      entry_lem (server_field net s key t) entries f rest config
        (λ u. entries_lem entries f rest config u)
  entries_lem (sequence key l ∷ entries) f rest config s =
      rw (sequence_lem net memory (keyed config s key) s key l (entry_events entries rest)) (
        read_lem (entry_meaning net memory (sequence key l) s) entries f rest config s key
          (λ u. entries_lem entries f rest config u))

  abbrev Goes : List (List Entry) → ℕ → List Event → Type 0
  Goes servers f rest =
      (config : Config)
      → servers_loop net memory (all_steps servers f) (static_events servers rest) (between config)
        ≡ on_done (servers_meaning net memory servers config) (λ c. done (c, rest))

  end_lem :
      (o : Outcome Server) (servers : List (List Entry)) (f : ℕ) (rest : List Event)
      (config : Config)
      → Goes servers f rest
      → on_done o (λ s.
        servers_loop net memory
          (suc (all_steps servers f))
          (mapping_end ∷ static_events servers rest)
          (inside config s))
        ≡ on_done
            (on_done
              (on_done o (λ s. on_done (server_end (inside config s) s) (λ r. done r.config)))
              (λ c. servers_meaning net memory servers c))
            (λ c. done (c, rest))
  unfolding servers_loop server_event server_end
  end_lem (failed e) servers f rest config h = refl
  end_lem exhausted servers f rest config h = refl
  end_lem (done s) servers f rest config h = elim (Bool-cases (family_eq s.address.family unspec)) [
    | inl e ↦ rw (server_end, e) refl
    | inr e ↦ rw (server_end, e) (h _)
  ]

  servers_lem : (servers : List (List Entry)) (f : ℕ) (rest : List Event) → Goes servers f rest
  unfolding servers_loop server_event
  servers_lem [] f rest config = refl
  servers_lem (entries ∷ servers) f rest config =
      entries_lem entries (suc (all_steps servers f)) (mapping_end ∷ static_events servers rest)
        config server_uri_t_init
      ∙ end_lem (entries_meaning net memory entries server_uri_t_init) servers f rest config
          (servers_lem servers f rest)

  -- On the events of a sequence of mappings, whatever their entries are, the loop over the events comes to
  -- what the entries mean one by one: the servers with their fields set in the order of the entries,
  -- completed and appended to the static servers, and the events behind the sequence; or, if an entry
  -- or the end of a mapping is refused, the first such refusal with its message.
  pub parse_static_servers-meaning :
      (servers : List (List Entry)) (rest : List Event) (config : Config)
      → parse_static_servers net memory (static_events servers rest) config
        ≡ on_done (servers_meaning net memory servers config) (λ c. done (c, rest))
  unfolding parse_static_servers
  parse_static_servers-meaning servers rest config =
      subst
        (λ n.
          servers_loop net memory n (static_events servers rest) (between config)
          ≡ on_done (servers_meaning net memory servers config) (λ c. done (c, rest)))
        enough (servers_lem servers left rest config)
    where
      left : ℕ
      left = length (static_events servers rest) - all_steps servers 0

      enough : all_steps servers left ≡ length (static_events servers rest)
      enough = omega (arith, all_steps_add servers left, static_events-length servers rest)
