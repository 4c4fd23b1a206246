-- ===== src/Options/File/Servers/Entries.antt =====
-- What `static_servers` of a configuration file means, entry by entry, next to
-- `parse_static_servers` of src/configuration_parsing/config_file.c.
use dnsconfd.Prelude.{
  ℕ, true, Option, none, some, List, [], ◌∷◌, ◌++◌, Text, text_eq, codes, length, if◌then◌else◌,
}
use dnsconfd.Ip.{SockAddr, Inet}
use dnsconfd.Network.{NetworkAddress, network_address_t_from_string}
use dnsconfd.Server.{Server, server_uri_t_init}
use dnsconfd.Config.{Config}
use dnsconfd.Yaml.{
  Event, scalar, sequence_start, sequence_end, mapping_start, mapping_end, Outcome, done, failed,
  on_done, or_fail,
}
use dnsconfd.Options.File.Servers.{Reading, server_field, server_end}

-- An entry of the mapping of a server: a value, or a sequence of values.
pub data Entry : Type 0 where
  value : Text → Text → Entry
  sequence : Text → List Text → Entry

abbrev pub scalars : List Text → List Event → List Event
scalars [] rest = rest
scalars (t ∷ l) rest = scalar t ∷ scalars l rest

-- The events of the entries, in front of others.
abbrev pub entry_events : List Entry → List Event → List Event
entry_events [] rest = rest
entry_events (value key t ∷ entries) rest = scalar key ∷ scalar t ∷ entry_events entries rest
entry_events (sequence key l ∷ entries) rest =
    scalar key ∷ sequence_start ∷ scalars l (sequence_end ∷ entry_events entries rest)

abbrev pub static_events : List (List Entry) → List Event → List Event
static_events [] rest = sequence_end ∷ rest
static_events (entries ∷ servers) rest =
    mapping_start ∷ entry_events entries (mapping_end ∷ static_events servers rest)

-- The networks of a list of texts, behind those from before.
abbrev pub networks_of :
    Inet → (ℕ → SockAddr) → List Text → List NetworkAddress → Option (List NetworkAddress)
networks_of net memory [] before = some before
networks_of net memory (t ∷ l) before =
    elim (network_address_t_from_string net (memory (length before)) t) [
      | none ↦ none
      | some n ↦ networks_of net memory l (before ++ (n ∷ []))
    ]

-- What an entry does to the server.
abbrev pub entry_meaning : Inet → (ℕ → SockAddr) → Entry → Server → Outcome Server
entry_meaning net memory (value key t) s = server_field net s key t
entry_meaning net memory (sequence key l) s =
    if text_eq key (codes "routing_domains")
    then done (record s { routing_domains = s.routing_domains ++ l })
    else if text_eq key (codes "search_domains")
    then done (record s { search_domains = s.search_domains ++ l })
    else if text_eq key (codes "networks")
    then or_fail (codes "Failed to parse networks in static_servers")
        (networks_of net memory l s.networks) (λ ns. done (record s { networks = ns }))
    else failed (some (codes "Unrecognized sequence in static_servers"))

abbrev pub entries_meaning : Inet → (ℕ → SockAddr) → List Entry → Server → Outcome Server
entries_meaning net memory [] s = done s
entries_meaning net memory (e ∷ entries) s =
    on_done (entry_meaning net memory e s) (λ t. entries_meaning net memory entries t)

-- The loop between two servers, with the configuration so far.
abbrev pub between : Config → Reading
between config = record {
  config = config;
  current_server = none;
  current_key = none;
  expect_key = true;
}

abbrev pub inside : Config → Server → Reading
inside config s = record {
  config = config;
  current_server = some s;
  current_key = none;
  expect_key = true;
}

-- What a server adds to the configuration, and what all of them do.
abbrev pub server_meaning : Inet → (ℕ → SockAddr) → List Entry → Config → Outcome Config
server_meaning net memory entries config =
    on_done (entries_meaning net memory entries server_uri_t_init)
      (λ s. on_done (server_end (inside config s) s) (λ r. done r.config))

abbrev pub servers_meaning : Inet → (ℕ → SockAddr) → List (List Entry) → Config → Outcome Config
servers_meaning net memory [] config = done config
servers_meaning net memory (entries ∷ servers) config =
    on_done (server_meaning net memory entries config) (λ c. servers_meaning net memory servers c)
