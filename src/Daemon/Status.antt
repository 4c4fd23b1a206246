-- ===== src/Daemon/Status.antt =====
-- The reply to a status call: `construct_cache_config_status` and `config_to_json` of
-- src/dbus_server.c, and the names of src/fsm/fsm.c that it holds.
pub mod Laws
use dnsconfd.Prelude.{
  ◌≡◌, Bool, true, false, not, ◌==◌, Option, none, some, List, [], ◌∷◌, ◌++◌, Text, codes,
  if◌then◌else◌,
}
use dnsconfd.HashTable.{Table}
use dnsconfd.Ip.{Inet, inet, family_eq, ip_text}
use dnsconfd.Number.{decimal}
use dnsconfd.Server.{Server, tls, protocol_eq, dns_protocol_t_to_string}
use dnsconfd.Json.{
  Json, string, array, object, Items, no_items, item, Fields, no_fields, json_object_set_new,
  strings,
}
use dnsconfd.Server.Json.{server_uri_to_json}
use dnsconfd.Config.{Mode, backup, prefer, exclusive}
use dnsconfd.Context.{
  Context, State, starting, configuring_dns_manager, submitting_start_job, waiting_for_start_job,
  setting_resolv_conf, updating_dns_manager, running, reverting_resolv_conf, submitting_stop_job,
  waiting_stop_job, stopping,
}

unfoldable pub fsm_state_t_to_string : State → Text
fsm_state_t_to_string starting = codes "STARTING"
fsm_state_t_to_string configuring_dns_manager = codes "CONFIGURING_DNS_MANAGER"
fsm_state_t_to_string submitting_start_job = codes "SUBMITTING_START_JOB"
fsm_state_t_to_string waiting_for_start_job = codes "WAITING_FOR_START_JOB"
fsm_state_t_to_string setting_resolv_conf = codes "SETTING_RESOLV_CONF"
fsm_state_t_to_string updating_dns_manager = codes "UPDATING_DNS_MANAGER"
fsm_state_t_to_string running = codes "RUNNING"
fsm_state_t_to_string reverting_resolv_conf = codes "REVERTING_RESOLV_CONF"
fsm_state_t_to_string submitting_stop_job = codes "SUBMITTING_STOP_JOB"
fsm_state_t_to_string waiting_stop_job = codes "WAITING_STOP_JOB"
fsm_state_t_to_string stopping = codes "STOPPING"

unfoldable pub dnsconfd_mode_t_to_string : Mode → Text
dnsconfd_mode_t_to_string backup = codes "backup"
dnsconfd_mode_t_to_string prefer = codes "prefer"
dnsconfd_mode_t_to_string exclusive = codes "exclusive"

-- The port, unless it is the usual one, and for TLS the name.
abbrev port_suffix : Server → Text
port_suffix server =
    let usual = if protocol_eq server.protocol tls then 853 else 53 in
    if server.address.port == usual then [] else b':' ∷ decimal server.address.port

abbrev name_suffix : Option Text → Text
name_suffix none = []
name_suffix (some name) = b'#' ∷ name

-- The text of a server, whose address has a known family.
unfoldable pub uri_str : Inet → Server → Text
uri_str net cur_server =
    dns_protocol_t_to_string cur_server.protocol
    ++ ((if family_eq cur_server.address.family inet
          then codes "://" ++ ip_text net cur_server.address
          else codes "://[" ++ (ip_text net cur_server.address ++ codes "]"))
        ++ (port_suffix cur_server
            ++ (if protocol_eq cur_server.protocol tls then name_suffix cur_server.name else [])))

abbrev pub uri_strs : Inet → List Server → List Text
uri_strs net [] = []
uri_strs net (s ∷ l) = uri_str net s ∷ uri_strs net l

-- The loop over the table, which sets a key of the object for each entry.
unfoldable pub set_domains : Inet → Table (List Server) → Fields → Fields
unfolding json_object_set_new
set_domains net [] new_object = new_object
set_domains net ((key, value) ∷ table) new_object =
    set_domains net table
      (json_object_set_new key (array (strings (uri_strs net value))) new_object)

unfoldable pub construct_cache_config_status : Inet → Option (Table (List Server)) → Fields
unfolding set_domains
construct_cache_config_status net none = no_fields
construct_cache_config_status net (some table) = set_domains net table no_fields

abbrev pub servers_json : Inet → List Server → Items
servers_json net [] = no_items
servers_json net (s ∷ l) = item (server_uri_to_json net s) (servers_json net l)

unfoldable pub config_to_json : Inet → Context → Json
unfolding fsm_state_t_to_string dnsconfd_mode_t_to_string construct_cache_config_status
config_to_json net ctx = object (
    json_object_set_new (codes "servers") (array (servers_json net ctx.all_servers)) (
      json_object_set_new (codes "state") (string (fsm_state_t_to_string ctx.current_state)) (
        json_object_set_new (codes "cache_config")
          (object (construct_cache_config_status net ctx.current_unbound_domain_to_servers))
          (json_object_set_new (codes "mode")
            (string (dnsconfd_mode_t_to_string ctx.resolution_mode))
            (json_object_set_new (codes "service") (string (codes "unbound")) no_fields)))))

-- `dumps` is `json_dumps`.
unfoldable pub handle_status_call : (Json → Text) → Inet → Context → Text
unfolding config_to_json
handle_status_call dumps net ctx = dumps (config_to_json net ctx)
