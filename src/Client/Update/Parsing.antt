-- ===== src/Client/Update/Parsing.antt =====
-- The servers that src/configuration_parsing/update_command.c takes from the command line.
use dnsconfd.Prelude.{
  ℕ, Bool, true, false, List, [], ◌∷◌, Text, codes, All, All-append, if◌then◌else◌,
}
use dnsconfd.Ip.{InetLaws}
use dnsconfd.Ip.Laws.{IsStorage}
use dnsconfd.Server.{Server}
use dnsconfd.Server.Valid.{IsServer}
use dnsconfd.Server.Json.{server_uri_t_list_from_json}
use dnsconfd.Server.Json.Laws.{server_uri_t_list_from_json-All}
use dnsconfd.Server.Uri.{Filling, refused, overrun, filled, server_uri_t_init_from_string}
use dnsconfd.Server.Uri.Laws.Filled.{Accepts}
use dnsconfd.Server.Uri.Laws.{server_uri_t_init_from_string-Accepts}
use dnsconfd.Options.{same_word}
use dnsconfd.Client.Update.{
  UpdateOptions, UpdateOption, json_option, mode_option, argument, Step, stops, overruns, goes_on,
  mode_step, json_step, uri_step, Readers, parse_update_command_opt, then_step,
  parse_update_options, no_update_options, parse_update_command,
}

-- If the parser goes on, the servers so far are ones that the rest of the program may rely on.
abbrev pub Gathers : Step → Type 0
Gathers stops = Unit
Gathers overruns = Unit
Gathers (goes_on config) = All IsServer config.servers_uris

if-Gathers : (b : Bool) (x y : Step) → Gathers x → Gathers y → Gathers (if b then x else y)
if-Gathers true x y f g = f
if-Gathers false x y f g = g

mode-Gathers :
    (arg : Text) (c : UpdateOptions) → All IsServer c.servers_uris → Gathers (mode_step arg c)
unfolding mode_step
mode-Gathers arg c h = if-Gathers (same_word arg (codes "backup")) _ _ h (
    if-Gathers (same_word arg (codes "prefer")) _ _ h
      (if-Gathers (same_word arg (codes "exclusive")) _ _ h tt))

json-Gathers : (l : List Server) (c : UpdateOptions) → All IsServer l → Gathers (json_step l c)
unfolding json_step
json-Gathers [] c h = tt
json-Gathers (s ∷ l) c h = h

uri-Gathers :
    (f : Filling) (c : UpdateOptions)
    → All IsServer c.servers_uris
    → Accepts f
    → Gathers (uri_step f c)
unfolding uri_step
uri-Gathers refused c h k = tt
uri-Gathers overrun c h k = tt
uri-Gathers (filled s) c h k = All-append IsServer c.servers_uris (s ∷ []) h (k, tt)

module _ (readers : Readers) (laws : InetLaws readers.net)
    (storage : (n : ℕ) → IsStorage (readers.memory n)) where
  opt-Gathers :
      (o : UpdateOption) (c : UpdateOptions)
      → All IsServer c.servers_uris
      → Gathers (parse_update_command_opt readers o c)
  unfolding parse_update_command_opt
  opt-Gathers json_option c h = h
  opt-Gathers (mode_option arg) c h = mode-Gathers arg c h
  opt-Gathers (argument arg) c h = if-Gathers c.parsed_as_json _ _ tt (
      if-Gathers c.json _ _
        (json-Gathers (server_uri_t_list_from_json readers.loads readers.net readers.memory arg) c
          (server_uri_t_list_from_json-All laws readers.memory storage readers.loads arg))
        (uri-Gathers (server_uri_t_init_from_string readers.uris readers.net readers.memory arg) c h
          (server_uri_t_init_from_string-Accepts laws readers.memory storage readers.uris arg)))

  options-Gathers :
      (options : List UpdateOption) (c : UpdateOptions)
      → All IsServer c.servers_uris
      → Gathers (parse_update_options readers options c)
  unfolding parse_update_options
  options-Gathers [] c h = h
  options-Gathers (o ∷ options) c h =
      go (parse_update_command_opt readers o c) (opt-Gathers o c h)
        (λ d k. options-Gathers options d k)
    where
      go :
          (r : Step)
          → Gathers r
          → ((d : UpdateOptions)
              → All IsServer d.servers_uris
              → Gathers (parse_update_options readers options d))
          → Gathers (then_step r (λ d. parse_update_options readers options d))
      go stops k f = tt
      go overruns k f = tt
      go (goes_on d) k f = f d k

  -- Whatever the arguments of the update command are, URIs or a JSON text: the servers that it goes on with have an
  -- address of a known family, a port that fits, a supported protocol, an interface name that fits, and
  -- networks whose prefix their family allows. The conversions of addresses follow their
  -- documentation, and the memory for a network is of the right size.
  pub parse_update_command-Gathers :
      (options : List UpdateOption) → Gathers (parse_update_command readers options)
  unfolding parse_update_command
  parse_update_command-Gathers options = options-Gathers options no_update_options tt
