-- ===== src/Fsm/Rounds.antt =====
-- One round of `state_transition` in src/fsm/fsm.c: the events that a state handles, and the order of the
-- states.
use dnsconfd.Prelude.{ℕ, ◌<◌, ◌≡◌, Bool, true, false, arith}
use dnsconfd.Env.{Env}
use dnsconfd.Context.{
  Context, State, starting, configuring_dns_manager, submitting_start_job, waiting_for_start_job,
  setting_resolv_conf, updating_dns_manager, running, reverting_resolv_conf, submitting_stop_job,
  waiting_stop_job, stopping, Event, kickoff, success, failure, reload, job_success, job_failure,
  stop,
}
use dnsconfd.Fsm.Actions.{set_exit_code}
use dnsconfd.Fsm.Transition.{Round, refused, next, dispatch, enter, is_nothing}
use dnsconfd.Fsm.Invariant.{IsSane, IsSound}

-- The events for which a state has a branch.
abbrev pub handles : State → Event → Bool
handles starting Event.update = true
handles starting kickoff = true
handles starting reload = true
handles starting stop = true
handles configuring_dns_manager success = true
handles configuring_dns_manager failure = true
handles submitting_start_job success = true
handles submitting_start_job failure = true
handles waiting_for_start_job job_success = true
handles waiting_for_start_job job_failure = true
handles waiting_for_start_job Event.update = true
handles waiting_for_start_job reload = true
handles waiting_for_start_job stop = true
handles setting_resolv_conf success = true
handles setting_resolv_conf failure = true
handles updating_dns_manager success = true
handles updating_dns_manager failure = true
handles updating_dns_manager reload = true
handles running Event.update = true
handles running reload = true
handles running stop = true
handles reverting_resolv_conf success = true
handles reverting_resolv_conf failure = true
handles submitting_stop_job success = true
handles submitting_stop_job failure = true
handles waiting_stop_job job_failure = true
handles waiting_stop_job job_success = true
handles waiting_stop_job Event.update = true
handles waiting_stop_job reload = true
handles waiting_stop_job stop = true
handles stopping stop = true
handles _ _ = false

-- The states in which the daemon waits for the next event from outside.
abbrev pub sleeps : State → Bool
sleeps starting = true
sleeps waiting_for_start_job = true
sleeps running = true
sleeps waiting_stop_job = true
sleeps stopping = true
sleeps _ = false

-- A bound on the rounds that are still to come when the loop is in a state.
abbrev pub rank : State → ℕ
rank starting = 4
rank configuring_dns_manager = 3
rank submitting_start_job = 2
rank waiting_for_start_job = 6
rank setting_resolv_conf = 5
rank updating_dns_manager = 4
rank running = 6
rank reverting_resolv_conf = 3
rank submitting_stop_job = 2
rank waiting_stop_job = 2
rank stopping = 1

-- The round ran, kept the invariant, and either ended the loop in a state that waits or led, with
-- an event that is handled there, to a state of lower rank.
pub record Leads (s : State) (r : Round) : Type 0 where
  pub event : Event
  pub after : Context
  pub ran : r ≡ next event after
  pub sound : IsSound after event
  pub ends : is_nothing event ≡ true → sleeps after.current_state ≡ true
  pub goes :
      is_nothing event ≡ false
      → (handles after.current_state event ≡ true) × (rank after.current_state < rank s)

pub dispatch-refused :
    (s : State) (e : Event) (env : Env) (c : Context)
    → handles s e ≡ false
    → dispatch s e env c ≡ refused
unfolding dispatch
dispatch-refused starting e env c h = ground arith
dispatch-refused _ e env c h = ground arith

-- A move to a state with the same context otherwise.
pub entered : {c : Context} (s : State) → IsSane c → IsSane (enter c s)
entered s h = record {
  static = h.static;
  current = h.current;
  coming = h.coming;
  serial_pos = h.serial_pos;
  serial_fits = h.serial_fits;
}

pub coded : {c : Context} (n : ℕ) → IsSane c → IsSane (set_exit_code c n)
unfolding set_exit_code
coded n h = ground arith
