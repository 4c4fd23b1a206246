-- ===== src/Client/Update.antt =====
-- The update command: src/cli_commands/cli_update.c, and its options in
-- src/configuration_parsing/update_command.c. Memory does not run out.
pub mod Fields
pub mod Sent
pub mod Parsing
pub mod Waiting
use dnsconfd.Prelude.{
  ℕ, ◌≡◌, Bool, true, false, not, ◌||◌, ◌&&◌, ◌==◌, Option, none, some, List, [], ◌∷◌, ◌++◌, Text,
  text_eq, codes, if◌then◌else◌, is_nil, ltb,
}
use dnsconfd.Prelude.Int.{ℤ, pos}
use dnsconfd.Ip.{SockAddr, Inet, c_string, ip_text}
use dnsconfd.Network.{NetworkAddress, network_address_to_string}
use dnsconfd.Server.{Server, dns_protocol_t_to_string}
use dnsconfd.Json.{Json}
use dnsconfd.Server.Json.{server_uri_t_list_from_json}
use dnsconfd.Server.Uri.{
  UriParser, Filling, refused, overrun, filled, server_uri_t_init_from_string,
}
use dnsconfd.Config.{Mode, backup, prefer, exclusive}
use dnsconfd.Options.{same_word}
use dnsconfd.Daemon.Update.{ServerDict}

-- The key is left out where the list is NULL.
unfoldable pub build_string_array : List Text → Option (List Text)
build_string_array [] = none
build_string_array (t ∷ list) = some (t ∷ list)

-- The address of a network has a known family.
abbrev pub network_strings : Inet → List NetworkAddress → List Text
network_strings net [] = []
network_strings net (n ∷ list) =
    c_string (network_address_to_string net n) ∷ network_strings net list

unfoldable pub build_networks_array : Inet → List NetworkAddress → Option (List Text)
build_networks_array net [] = none
build_networks_array net (n ∷ list) = some (network_strings net (n ∷ list))

-- The dictionary of a server, whose address has a known family.
unfoldable pub server_dict : Inet → Server → ServerDict
unfolding build_string_array build_networks_array
server_dict net server = record {
  address_string = some (ip_text net server.address);
  address_bytes = none;
  port = if ltb 0 server.address.port then some (pos server.address.port) else none;
  priority = some server.priority;
  protocol = some (dns_protocol_t_to_string server.protocol);
  interface = if is_nil server.interface then none else some server.interface;
  dnssec = some (not (server.dnssec == 0));
  ca = server.certification_authority;
  name = server.name;
  routing_domains = build_string_array server.routing_domains;
  search_domains = build_string_array server.search_domains;
  networks = build_networks_array net server.networks;
}

unfoldable pub build_servers_variant : Inet → List Server → List ServerDict
unfolding server_dict
build_servers_variant net [] = []
build_servers_variant net (s ∷ servers) = server_dict net s ∷ build_servers_variant net servers

-- `update_command_options_t`, and the static variable of the parser.
pub record UpdateOptions : Type 0 where
  pub mode : Mode
  pub json : Bool
  pub servers_uris : List Server
  pub parsed_as_json : Bool

-- An option or an argument of the command.
pub data UpdateOption : Type 0 where
  json_option : UpdateOption
  mode_option argument : Text → UpdateOption

-- `stops`: `argp_error` ends the process; `overruns`: a write behind the end of a buffer.
pub data Step : Type 0 where
  stops overruns : Step
  goes_on : UpdateOptions → Step

mode_step : Text → UpdateOptions → Step
mode_step arg config =
    if same_word arg (codes "backup")
    then goes_on config
    else if same_word arg (codes "prefer")
    then goes_on (record config { mode = prefer })
    else if same_word arg (codes "exclusive")
    then goes_on (record config { mode = exclusive })
    else stops

-- The servers of a JSON text; an empty list is NULL.
json_step : List Server → UpdateOptions → Step
json_step [] config = stops
json_step (s ∷ servers) config =
    goes_on (record config { servers_uris = s ∷ servers; parsed_as_json = true })

uri_step : Filling → UpdateOptions → Step
uri_step refused config = stops
uri_step overrun config = overruns
uri_step (filled s) config =
    goes_on (record config { servers_uris = config.servers_uris ++ (s ∷ []) })

-- The libraries that read the arguments, and the content of fresh memory.
pub record Readers : Type 0 where
  pub net : Inet
  pub memory : ℕ → SockAddr
  pub loads : Text → Option Json
  pub uris : UriParser

unfoldable pub parse_update_command_opt : Readers → UpdateOption → UpdateOptions → Step
unfolding mode_step json_step uri_step
parse_update_command_opt readers json_option config = goes_on (record config { json = true })
parse_update_command_opt readers (mode_option arg) config = mode_step arg config
parse_update_command_opt readers (argument arg) config =
    if config.parsed_as_json
    then stops
    else if config.json
    then json_step (server_uri_t_list_from_json readers.loads readers.net readers.memory arg) config
    else uri_step (server_uri_t_init_from_string readers.uris readers.net readers.memory arg) config

abbrev pub then_step : Step → (UpdateOptions → Step) → Step
then_step stops f = stops
then_step overruns f = overruns
then_step (goes_on config) f = f config

-- `argp_parse`, which calls the parser for each option in turn.
unfoldable pub parse_update_options : Readers → List UpdateOption → UpdateOptions → Step
unfolding parse_update_command_opt
parse_update_options readers [] config = goes_on config
parse_update_options readers (option ∷ options) config =
    then_step (parse_update_command_opt readers option config)
      (λ c. parse_update_options readers options c)

abbrev pub no_update_options : UpdateOptions
no_update_options = record {
  mode = backup;
  json = false;
  servers_uris = [];
  parsed_as_json = false;
}

unfoldable pub parse_update_command : Readers → List UpdateOption → Step
unfolding parse_update_options
parse_update_command readers options = parse_update_options readers options no_update_options

-- A signal PropertiesChanged: its interface, and the changed keys with the values that are numbers.
pub record Signal : Type 0 where
  pub interface : Text
  pub changed : List (Text × ℕ)

abbrev pub has_serial : ℕ → List (Text × ℕ) → Bool
has_serial serial [] = false
has_serial serial ((key, value) ∷ changed) =
    (text_eq key (codes "configuration_serial") && value == serial) || has_serial serial changed

-- Whether the signal ends the loop with success.
unfoldable pub on_properties_changed : ℕ → Signal → Bool
on_properties_changed expected_serial signal =
    text_eq signal.interface (codes "com.redhat.dnsconfd.Manager")
    && has_serial expected_serial signal.changed

-- The main loop: the signals that arrive before the timeout.
unfoldable pub signals_loop : ℕ → List Signal → Bool
unfolding on_properties_changed
signals_loop serial [] = false
signals_loop serial (signal ∷ signals) =
    if on_properties_changed serial signal then true else signals_loop serial signals

-- `prop_result` is the answer to the question for the present serial, if there is one.
unfoldable pub wait_for_serial : ℕ → Option ℕ → List Signal → Bool
unfolding signals_loop
wait_for_serial serial none signals = signals_loop serial signals
wait_for_serial serial (some retrieved_serial) signals =
    if retrieved_serial == serial then true else signals_loop serial signals

abbrev pub exit_command_failure : ℕ
exit_command_failure = 15

after_reply : Option ℕ → Option ℕ → List Signal → Bool
unfolding wait_for_serial
after_reply none present signals = false
after_reply (some serial) present signals =
    if serial == 0 then false else wait_for_serial serial present signals

-- The exit code, from whether the bus can be reached, the serial of the reply, the present serial and the
-- signals that follow.
unfoldable pub cli_update_command : Bool → Option ℕ → Option ℕ → List Signal → ℕ
unfolding after_reply
cli_update_command connected reply present signals =
    if not connected
    then exit_command_failure
    else if after_reply reply present signals
    then 0
    else exit_command_failure
