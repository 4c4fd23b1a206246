-- ===== src/Daemon.antt =====
-- The callers that hand an event to the state machine: the handlers of src/dbus_server.c and
-- `on_systemd_job_finished` of src/fsm/fsm.c. The result says whether the handler returned.
pub mod Update
pub mod Answer
pub mod Reachable
pub mod Started
pub mod Status
use dnsconfd.Prelude.{
  ℕ, ◌≡◌, Bool, true, false, Option, none, some, List, [], Text, text_eq, codes, if◌then◌else◌,
}
use dnsconfd.Server.{Server}
use dnsconfd.Config.{Config, Mode, backup}
use dnsconfd.Env.{Env, World, emit, quit}
use dnsconfd.Context.{
  Context, State, starting, Event, update, kickoff, reload, job_success, job_failure, stop,
  exit_dbus_failure, exit_fsm_failure,
}
use dnsconfd.Fsm.Transition.{Ending, slept, rejected, crashed, exhausted, state_transition}

-- The context of `dbus_server_run`: the fields that it does not name are zero.
unfoldable pub dbus_server_run : Config → Context
dbus_server_run config = record {
  current_state = starting;
  config = config;
  current_dynamic_servers = [];
  new_dynamic_servers = [];
  all_servers = [];
  current_domain_to_servers = none;
  current_unbound_domain_to_servers = none;
  resolv_conf_backup = none;
  effective_ca = none;
  exit_code = 0;
  requested_configuration_serial = 1;
  current_configuration_serial = 1;
  resolution_mode = backup;
  expected_status = none;
  monitors = 0;
  world = record { calls = 0; log = [] };
}

-- `ctx->exit_code = code; g_main_loop_quit(ctx->main_loop);`
unfoldable pub leave : Context → ℕ → Context
leave ctx code = record ctx { exit_code = code; world = emit quit ctx.world }

-- What the handlers do with the return value: `none` is a call that does not return.
unfoldable pub accept : Ending → Option Context
unfolding leave
accept (slept ctx) = some ctx
accept (rejected ctx) = some (leave ctx exit_fsm_failure)
accept crashed = none
accept exhausted = none

unfoldable pub on_name_acquired : Env → Context → Option Context
unfolding accept
on_name_acquired env ctx = accept (state_transition env ctx kickoff)

unfoldable pub on_name_lost : Context → Context
unfolding leave
on_name_lost ctx = leave ctx exit_dbus_failure

unfoldable pub on_sigterm : Env → Context → Option Context
unfolding accept
on_sigterm env ctx = accept (state_transition env ctx stop)

unfoldable pub handle_reload_call : Env → Context → Option Context
unfolding accept
handle_reload_call env ctx = accept (state_transition env ctx reload)

-- The end of `handle_update_call`, when all servers were parsed; the reply carries the serial.
unfoldable pub accept_update : Env → Mode → List Server → Context → Option Context
unfolding accept
accept_update env mode parsed_servers ctx = accept (
    state_transition env
      (record ctx { new_dynamic_servers = parsed_servers; resolution_mode = mode }) update)

-- The return value of the transition is not looked at.
abbrev pub ignore : Ending → Option Context
ignore (slept ctx) = some ctx
ignore (rejected ctx) = some ctx
ignore crashed = none
ignore exhausted = none

abbrev pub event_of_result : Text → Event
event_of_result result =
    if text_eq result (codes "stopped")
    then reload
    else if text_eq result (codes "done")
    then job_success
    else job_failure

unfoldable pub on_systemd_job_finished : Env → Text → Context → Option Context
on_systemd_job_finished env result ctx = ignore (state_transition env ctx (event_of_result result))
