-- ===== src/Context.antt =====
-- `fsm_context_t` of src/fsm/fsm.h with its states and events, and the exit codes of
-- src/dnsconfd_config.h. The D-Bus connection, the introspection data and the main loop are the
-- environment's; a quit of the main loop is an effect.
use dnsconfd.Prelude.{ℕ, Option, List, Text}
use dnsconfd.HashTable.{Table}
use dnsconfd.Server.{Server}
use dnsconfd.Config.{Config, Mode}
use dnsconfd.Env.{World}

pub data State : Type 0 where
  starting configuring_dns_manager submitting_start_job waiting_for_start_job : State
  setting_resolv_conf updating_dns_manager running reverting_resolv_conf : State
  submitting_stop_job waiting_stop_job stopping : State

-- `EVENT_NONE` ends a transition.
pub data Event : Type 0 where
  nothing update kickoff success failure reload job_success job_failure stop : Event

abbrev pub exit_service_failure : ℕ
exit_service_failure = 8

abbrev pub exit_dbus_failure : ℕ
exit_dbus_failure = 9

abbrev pub exit_resolv_conf_failure : ℕ
exit_resolv_conf_failure = 10

abbrev pub exit_update_failure : ℕ
exit_update_failure = 16

abbrev pub exit_fsm_failure : ℕ
exit_fsm_failure = 17

-- An empty list stands for NULL, as in GLib. `expected_status` and `monitors` are the service
-- management context: the status that is waited for, and how
-- many monitors of the status file are connected.
pub record Context : Type 0 where
  pub current_state : State
  pub config : Config
  pub current_dynamic_servers : List Server
  pub new_dynamic_servers : List Server
  pub all_servers : List Server
  pub current_domain_to_servers : Option (Table (List Server))
  pub current_unbound_domain_to_servers : Option (Table (List Server))
  pub resolv_conf_backup : Option Text
  pub effective_ca : Option Text
  pub exit_code : ℕ
  pub requested_configuration_serial : ℕ
  pub current_configuration_serial : ℕ
  pub resolution_mode : Mode
  pub expected_status : Option Text
  pub monitors : ℕ
  pub world : World
