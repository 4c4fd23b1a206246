-- ===== src/Options/File/Servers.antt =====
-- The static servers of a configuration file: `parse_static_servers` of
-- src/configuration_parsing/config_file.c and what it calls.
pub mod Sequences
pub mod Entries
pub mod Pending
pub mod Fields
pub mod Laws
pub mod Meaning
use dnsconfd.Prelude.{
  ℕ, zero, suc, ◌-◌, ◌≡◌, refl, Bool, true, false, not, ◌&&◌, ◌||◌, Option, none, some, List, [],
  ◌∷◌, ◌++◌, Text, text_eq, codes, if◌then◌else◌, length, is_nil,
}
use dnsconfd.Prelude.Int.{ℤ, pos, negsuc, pos_part, ltb_ℤ}
use dnsconfd.Ip.{SockAddr, Inet, unspec, family_eq, parse_ip_str, set_default_port}
use dnsconfd.Number.{strtol}
use dnsconfd.Network.{NetworkAddress, network_address_t_from_string}
use dnsconfd.Server.{Server, Protocol, udp, tcp, tls, protocols_end, protocol_eq, server_uri_t_init}
use dnsconfd.Config.{Config}
use dnsconfd.Yaml.{
  Event, scalar, sequence_start, sequence_end, mapping_start, mapping_end, stream_end, other_event,
  Outcome, done, failed, exhausted, on_done, or_fail,
}

unfoldable pub parse_protocol_string : Text → Protocol
parse_protocol_string str =
    if text_eq str (codes "dns+udp")
    then udp
    else if text_eq str (codes "dns+tcp")
    then tcp
    else if text_eq str (codes "dns+tls")
    then tls
    else protocols_end

-- `none` is the return of -1.
unfoldable pub parse_priority_str : Text → Server → Option Server
parse_priority_str str server =
    let (n, end_char) = strtol str in
    if ltb_ℤ n (negsuc 0x7fff_ffff) || ltb_ℤ (pos 0x7fff_ffff) n || not (is_nil end_char)
    then none
    else some (record server { priority = n })

-- `sin_port` and `sin6_port` are the same bytes.
unfoldable pub parse_port_str : Text → SockAddr → Option SockAddr
parse_port_str str address =
    let (n, end_char) = strtol str in
    if ltb_ℤ n (pos 0) || ltb_ℤ (pos 65535) n || not (is_nil end_char)
    then none
    else some (record address { port = pos_part n })

-- The list and the events behind the end of the sequence.
unfoldable pub parse_domains : List Event → List Text → Option (List Text × List Event)
parse_domains [] list = none
parse_domains (scalar value ∷ events) list = parse_domains events (list ++ (value ∷ []))
parse_domains (sequence_end ∷ events) list = some (list, events)
parse_domains (_ ∷ events) list = parse_domains events list

-- What `malloc` returns for each network holds anything.
unfoldable pub parse_networks :
    Inet
    → (ℕ → SockAddr)
    → List Event
    → List NetworkAddress
    → Option (List NetworkAddress × List Event)
parse_networks net memory [] list = none
parse_networks net memory (scalar value ∷ events) list =
    elim (network_address_t_from_string net (memory (length list)) value) [
      | none ↦ none
      | some network ↦ parse_networks net memory events (list ++ (network ∷ []))
    ]
parse_networks net memory (sequence_end ∷ events) list = some (list, events)
parse_networks net memory (_ ∷ events) list = parse_networks net memory events list

-- The variables of the loop.
pub record Reading : Type 0 where
  pub config : Config
  pub current_server : Option Server
  pub current_key : Option Text
  pub expect_key : Bool

abbrev pub with_server : Reading → Server → Reading
with_server r server = record r {
  current_server = some server;
  current_key = none;
  expect_key = true;
}

-- The sequence under a key of a server.
unfoldable pub server_sequence :
    Inet → (ℕ → SockAddr) → Reading → Server → Text → List Event → Outcome (Reading × List Event)
unfolding parse_domains parse_networks
server_sequence net memory r server key events =
    if text_eq key (codes "routing_domains")
    then or_fail (codes "Failed to parse routing_domains in static_servers")
        (parse_domains events server.routing_domains)
        (λ (l, rest). done (with_server r (record server { routing_domains = l }), rest))
    else if text_eq key (codes "search_domains")
    then or_fail (codes "Failed to parse search_domains in static_servers")
        (parse_domains events server.search_domains)
        (λ (l, rest). done (with_server r (record server { search_domains = l }), rest))
    else if text_eq key (codes "networks")
    then or_fail (codes "Failed to parse networks in static_servers")
        (parse_networks net memory events server.networks)
        (λ (l, rest). done (with_server r (record server { networks = l }), rest))
    else failed (some (codes "Unrecognized sequence in static_servers"))

-- The value under a key of a server. An unknown protocol leaves `error_string` as it was.
unfoldable pub server_field : Inet → Server → Text → Text → Outcome Server
unfolding parse_protocol_string parse_priority_str parse_port_str
server_field net server key value =
    if text_eq key (codes "name")
    then done (record server { name = some value })
    else if text_eq key (codes "protocol")
    then (let p = parse_protocol_string value in
        if protocol_eq p protocols_end then failed none else done (record server { protocol = p }))
    else if text_eq key (codes "address")
    then or_fail (codes "Failed to parse address in static_servers")
        (parse_ip_str net value server.address) (λ a. done (record server { address = a }))
    else if text_eq key (codes "port")
    then or_fail (codes "Failed to parse port in static_servers")
        (parse_port_str value server.address) (λ a. done (record server { address = a }))
    else if text_eq key (codes "dnssec")
    then done (
        if not (text_eq value (codes "1")) && not (text_eq value (codes "yes"))
        then record server { dnssec = 0 }
        else server)
    else if text_eq key (codes "priority")
    then or_fail (codes "Failed to parse priority in static_servers")
        (parse_priority_str value server) done
    else failed (some (codes "Unrecognized field in static_servers"))

-- The end of the mapping of a server.
unfoldable pub server_end : Reading → Server → Outcome Reading
server_end r server =
    if family_eq server.address.family unspec
    then failed (some (codes "Server in static_servers does not have address set"))
    else (let domains =
          if is_nil server.routing_domains then codes "." ∷ [] else server.routing_domains in
        let port = if protocol_eq server.protocol tls then 853 else 53 in
        let complete = record server {
          routing_domains = domains;
          address = set_default_port server.address port;
        } in
        done (record r {
          config = record r.config { static_servers = r.config.static_servers ++ (complete ∷ []) };
          current_server = none;
        }))

server_scalar : Inet → Reading → Text → Bool → Outcome Reading
unfolding server_field
server_scalar net r value true = done (record r { current_key = some value; expect_key = false })
server_scalar net r value false = elim r.current_server [
  | none ↦ done (record r { current_key = none; expect_key = true })
  | some server ↦ elim r.current_key [
    | none ↦ done (record r { current_key = none; expect_key = true })
    | some key ↦ on_done (server_field net server key value) (λ s. done (with_server r s))
  ]
]

abbrev and_events : List Event → Outcome Reading → Outcome (Reading × List Event)
and_events events o = on_done o (λ r. done (r, events))

-- One event that does not end the loop, and the events behind what it reads.
unfoldable pub server_event :
    Inet → (ℕ → SockAddr) → Event → Reading → List Event → Outcome (Reading × List Event)
unfolding server_sequence server_end server_scalar
server_event net memory sequence_start r events = elim r.current_server [
  | none ↦ failed (some (codes "Badly formatted static_servers"))
  | some server ↦ elim r.current_key [
    | none ↦ failed (some (codes "Badly formatted static_servers"))
    | some key ↦ server_sequence net memory r server key events
  ]
]
server_event net memory mapping_start r events = elim r.current_server [
  | none ↦ done (record r { current_server = some server_uri_t_init }, events)
  | some server ↦ failed (some (codes "Badly formatted static_servers"))
]
server_event net memory mapping_end r events = elim r.current_server [
  | none ↦ done (r, events)
  | some server ↦ and_events events (server_end r server)
]
server_event net memory (scalar value) r events =
    and_events events (server_scalar net r value r.expect_key)
server_event net memory _ r events = done (r, events)

-- The loop. Each round takes an event at least, so their number is enough fuel.
unfoldable pub servers_loop :
    Inet → (ℕ → SockAddr) → ℕ → List Event → Reading → Outcome (Config × List Event)
unfolding server_event
servers_loop net memory fuel [] r = failed (some (codes "Failed to parse configuration YAML"))
servers_loop net memory fuel (sequence_end ∷ events) r = done (r.config, events)
servers_loop net memory zero (event ∷ events) r = exhausted
servers_loop net memory (suc fuel) (event ∷ events) r =
    on_done (server_event net memory event r events)
      (λ (next, rest). servers_loop net memory fuel rest next)

unfoldable pub parse_static_servers :
    Inet → (ℕ → SockAddr) → List Event → Config → Outcome (Config × List Event)
unfolding servers_loop
parse_static_servers net memory events config =
    servers_loop net memory (length events) events
      (record { config = config; current_server = none; current_key = none; expect_key = true })
