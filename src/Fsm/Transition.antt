-- ===== src/Fsm/Transition.antt =====
-- `state_transition` of src/fsm/fsm.c: its switches and its loop.
use dnsconfd.Prelude.{ℕ, zero, suc, Bool, true, false, Option, none, some, codes}
use dnsconfd.Env.{Env, emit, notified, quit}
use dnsconfd.Context.{
  Context, State, starting, configuring_dns_manager, submitting_start_job, waiting_for_start_job,
  setting_resolv_conf, updating_dns_manager, running, reverting_resolv_conf, submitting_stop_job,
  waiting_stop_job, stopping, Event, nothing, kickoff, success, failure, reload, job_success,
  job_failure, stop, exit_service_failure, exit_resolv_conf_failure, exit_update_failure,
}
use dnsconfd.Fsm.Actions.{
  set_dynamic_servers, update_context, fsm_starting_event_kickoff,
  fsm_configuring_dns_manager_event_success, set_resolv_conf, update_dns_manager, submit_stop_job,
  revert_resolv_conf, set_exit_code,
}

-- One round of the loop: `return -1`, the next value of `cur_event`, or an access through NULL.
pub data Round : Type 0 where
  refused : Round
  next : Event → Context → Round
  fault : Round

abbrev pub enter : Context → State → Context
enter ctx s = record ctx { current_state = s }

abbrev pub followed : Option (Event × Context) → Round
followed none = fault
followed (some (e, ctx)) = next e ctx

-- For the branch that sets the state after the action.
abbrev pub followed_into : State → Option (Event × Context) → Round
followed_into s none = fault
followed_into s (some (e, ctx)) = next e (enter ctx s)

abbrev follow : Event × Context → Round
follow (e, ctx) = next e ctx

-- `sd_notify(0, "RELOADING=1\n")`.
abbrev pub reloading : Context → Context
reloading ctx = record ctx { world = emit (notified (codes "RELOADING=1\n")) ctx.world }

abbrev pub quit_loop : Context → Context
quit_loop ctx = record ctx { world = emit quit ctx.world }

-- The two nested switches; the last clause is every `default`.
unfoldable pub dispatch : State → Event → Env → Context → Round
dispatch starting Event.update env ctx = next nothing (update_context env (set_dynamic_servers ctx))
dispatch starting kickoff env ctx =
    followed_into configuring_dns_manager (fsm_starting_event_kickoff env ctx)
dispatch starting reload env ctx = next nothing ctx
dispatch starting stop env ctx = next stop (enter ctx stopping)
dispatch configuring_dns_manager success env ctx =
    let (e, ctx') = fsm_configuring_dns_manager_event_success env ctx in
    next e (enter ctx' submitting_start_job)
dispatch configuring_dns_manager failure env ctx = next stop (enter ctx stopping)
dispatch submitting_start_job success env ctx = next nothing (enter ctx waiting_for_start_job)
dispatch submitting_start_job failure env ctx = next stop (enter ctx stopping)
dispatch waiting_for_start_job job_success env ctx =
    followed (set_resolv_conf env (enter ctx setting_resolv_conf))
dispatch waiting_for_start_job job_failure env ctx =
    next stop (enter (set_exit_code ctx exit_service_failure) stopping)
dispatch waiting_for_start_job Event.update env ctx =
    next nothing (update_context env (set_dynamic_servers ctx))
dispatch waiting_for_start_job reload env ctx =
    followed (fsm_starting_event_kickoff env (enter ctx configuring_dns_manager))
dispatch waiting_for_start_job stop env ctx =
    follow (submit_stop_job env (enter ctx submitting_stop_job))
dispatch setting_resolv_conf success env ctx =
    followed (update_dns_manager env (enter ctx updating_dns_manager))
dispatch setting_resolv_conf failure env ctx =
    follow
      (submit_stop_job env (enter (set_exit_code ctx exit_resolv_conf_failure) submitting_stop_job))
dispatch updating_dns_manager success env ctx = next nothing (enter ctx running)
dispatch updating_dns_manager failure env ctx =
    followed
      (revert_resolv_conf env (enter (set_exit_code ctx exit_update_failure) reverting_resolv_conf))
dispatch updating_dns_manager reload env ctx =
    followed (fsm_starting_event_kickoff env (enter (reloading ctx) configuring_dns_manager))
dispatch running Event.update env ctx =
    followed (
      set_resolv_conf env
        (enter (update_context env (set_dynamic_servers ctx)) setting_resolv_conf))
dispatch running reload env ctx =
    followed (fsm_starting_event_kickoff env (enter (reloading ctx) configuring_dns_manager))
dispatch running stop env ctx = followed (revert_resolv_conf env (enter ctx reverting_resolv_conf))
dispatch reverting_resolv_conf failure env ctx =
    follow (submit_stop_job env (enter ctx submitting_stop_job))
dispatch reverting_resolv_conf success env ctx =
    follow (submit_stop_job env (enter ctx submitting_stop_job))
dispatch submitting_stop_job success env ctx = next nothing (enter ctx waiting_stop_job)
dispatch submitting_stop_job failure env ctx = next stop (enter ctx stopping)
dispatch waiting_stop_job job_failure env ctx = next stop (enter ctx stopping)
dispatch waiting_stop_job job_success env ctx = next stop (enter ctx stopping)
dispatch waiting_stop_job Event.update env ctx = next nothing ctx
dispatch waiting_stop_job reload env ctx = next nothing ctx
dispatch waiting_stop_job stop env ctx = next nothing ctx
dispatch stopping stop env ctx = next nothing (quit_loop ctx)
dispatch _ _ env ctx = refused

-- The end of the loop: 0, -1, an access through NULL, or no rounds left to run.
pub data Ending : Type 0 where
  slept : Context → Ending
  rejected : Context → Ending
  crashed : Ending
  exhausted : Ending

-- `cur_event` has become EVENT_NONE, or the loop goes on.
abbrev pub is_nothing : Event → Bool
is_nothing nothing = true
is_nothing _ = false

-- The `do … while (cur_event)` loop, with a bound on its rounds.
unfoldable pub state_loop : ℕ → Env → Context → Event → Ending
unfolding dispatch
state_loop zero env ctx event = exhausted
state_loop (suc rounds) env ctx event = elim (dispatch ctx.current_state event env ctx) [
  | refused ↦ rejected ctx
  | fault ↦ crashed
  | next e ctx' ↦ elim (is_nothing e) [ true ↦ slept ctx' | false ↦ state_loop rounds env ctx' e ]
]

-- The longest ways, such as a failed update whose stop job fails too, take six rounds.
abbrev pub rounds_enough : ℕ
rounds_enough = 6

unfoldable pub state_transition : Env → Context → Event → Ending
unfolding state_loop
state_transition env ctx event = state_loop rounds_enough env ctx event
