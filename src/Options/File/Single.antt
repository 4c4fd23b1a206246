-- ===== src/Options/File/Single.antt =====
-- One configuration file: `parse_single_config_file` of src/configuration_parsing/config_file.c and
-- what it calls.
pub mod Texts
pub mod Laws
use dnsconfd.Prelude.{
  ℕ, zero, suc, Bool, true, false, Option, none, some, List, [], ◌∷◌, ◌++◌, Text, text_eq, codes,
  if◌then◌else◌, length, ltb,
}
use dnsconfd.Ip.{SockAddr, Inet, parse_ip_str}
use dnsconfd.Config.{Config}
use dnsconfd.Options.{parse_log_level, parse_boolean}
use dnsconfd.Yaml.{
  Event, scalar, sequence_start, sequence_end, mapping_start, mapping_end, stream_end, other_event,
  Outcome, done, failed, exhausted, on_done,
}
use dnsconfd.Options.File.Servers.{parse_static_servers}
use dnsconfd.Options.File.Zones.{parse_rpz_zones}

-- An option that is a text.
unfoldable pub duplicating_options : Text → Text → Config → Outcome Config
duplicating_options key value config =
    if text_eq key (codes "file_log")
    then done (record config { file_log = some value })
    else if text_eq key (codes "resolv_conf_path")
    then done (record config { resolv_conf_path = some value })
    else if text_eq key (codes "resolver_options")
    then done (record config { resolver_options = some value })
    else if text_eq key (codes "certification_authority")
    then done (record config { certification_authority = some value })
    else failed (some (codes "Unrecognized option present in configuration YAML"))

-- The caller always gives a list for the paths.
unfoldable pub parse_include_list : List Event → List Text → Outcome (List Text × List Event)
parse_include_list [] include_paths = failed (some (codes "Failed to parse include list YAML"))
parse_include_list (scalar path ∷ events) include_paths =
    parse_include_list events (include_paths ++ (path ∷ []))
parse_include_list (sequence_end ∷ events) include_paths = done (include_paths, events)
parse_include_list (_ ∷ events) include_paths = parse_include_list events include_paths

-- The variables of the loop.
pub record Filing : Type 0 where
  pub config : Config
  pub include_paths : List Text
  pub current_key : Option Text
  pub depth : ℕ
  pub expect_key : Bool

abbrev pub with_config : Filing → Config → Filing
with_config f config = record f { config = config; current_key = none; expect_key = true }

-- The sequence under a key; that of another key is passed over, as is its start.
unfoldable pub file_sequence :
    Inet → (ℕ → SockAddr) → Filing → Text → List Event → Outcome (Filing × List Event)
unfolding parse_static_servers parse_rpz_zones parse_include_list
file_sequence net memory f key events =
    if text_eq key (codes "static_servers")
    then on_done (parse_static_servers net memory events f.config)
        (λ (config, rest). done (with_config f config, rest))
    else if text_eq key (codes "rpz")
    then on_done (parse_rpz_zones events f.config)
        (λ (config, rest). done (with_config f config, rest))
    else if text_eq key (codes "include")
    then on_done (parse_include_list events f.include_paths) (λ (paths, rest).
      done (record f { include_paths = paths; current_key = none; expect_key = true }, rest))
    else done (f, events)

-- The value under a key. The level is compared as an unsigned number, so that an unknown one is stored
-- as -1.
unfoldable pub file_field : Inet → Filing → Text → Text → Outcome Filing
unfolding duplicating_options
file_field net f key value =
    if text_eq key (codes "log_level")
    then done (with_config f (record f.config { log_level = parse_log_level value }))
    else if text_eq key (codes "stderr_log")
    then done (with_config f (record f.config { stderr_log = parse_boolean value }))
    else if text_eq key (codes "syslog_log")
    then done (with_config f (record f.config { syslog_log = parse_boolean value }))
    else if text_eq key (codes "listen_address")
    then elim (parse_ip_str net value f.config.listen_address) [
      | none ↦ failed (some (codes "Failed to parse listen address in configuration"))
      | some a ↦ done (with_config f (record f.config { listen_address = a }))
    ]
    else if text_eq key (codes "prioritize_wire")
    then done (with_config f (record f.config { prioritize_wire = parse_boolean value }))
    else if text_eq key (codes "dnssec_enabled")
    then done (with_config f (record f.config { dnssec_enabled = parse_boolean value }))
    else if text_eq key (codes "include")
    then done (record f {
      include_paths = f.include_paths ++ (value ∷ []);
      current_key = none;
      expect_key = true;
    })
    else on_done (duplicating_options key value f.config) (λ config. done (with_config f config))

-- Where a value is expected, there is a key.
file_scalar : Inet → Filing → Text → Bool → Outcome Filing
unfolding file_field
file_scalar net f value true = done (record f { current_key = some value; expect_key = false })
file_scalar net f value false = elim f.current_key [
  | none ↦ failed none
  | some key ↦ file_field net f key value
]

-- One event that does not end the loop, and the events behind what it reads.
unfoldable pub file_event :
    Inet → (ℕ → SockAddr) → Event → Filing → List Event → Outcome (Filing × List Event)
unfolding file_sequence file_scalar
file_event net memory mapping_start f events =
    if ltb 1 (suc f.depth)
    then failed (some (codes "Badly formatted YAML"))
    else done (record f { depth = suc f.depth }, events)
file_event net memory sequence_start f events = elim f.current_key [
  | none ↦ done (f, events)
  | some key ↦ file_sequence net memory f key events
]
file_event net memory (scalar value) f events =
    on_done (file_scalar net f value f.expect_key) (λ g. done (g, events))
file_event net memory _ f events = done (f, events)

-- The loop. Each round takes an event at least, so their number is enough fuel.
unfoldable pub file_loop :
    Inet → (ℕ → SockAddr) → ℕ → List Event → Filing → Outcome (Config × List Text)
unfolding file_event
file_loop net memory fuel [] f = failed (some (codes "Failed parse configuration YAML"))
file_loop net memory fuel (stream_end ∷ events) f = done (f.config, f.include_paths)
file_loop net memory zero (event ∷ events) f = exhausted
file_loop net memory (suc fuel) (event ∷ events) f =
    on_done (file_event net memory event f events)
      (λ (next, rest). file_loop net memory fuel rest next)

-- `read` gives the events of a file that can be opened.
unfoldable pub parse_single_config_file :
    Inet
    → (ℕ → SockAddr)
    → (Text → Option (List Event))
    → Text
    → Config
    → Outcome (Config × List Text)
unfolding file_loop
parse_single_config_file net memory read path config = elim (read path) [
  | none ↦ failed (some (codes "Failed to open configuration file"))
  | some events ↦ file_loop net memory (length events) events (record {
    config = config;
    include_paths = [];
    current_key = none;
    depth = 0;
    expect_key = true;
  })
]
