-- ===== src/Fsm/Branches/Ends.antt =====
-- Transitions that end, wait or stay where they are, in `state_transition` of
-- src/fsm/fsm.c.
use dnsconfd.Prelude.{◌<◌, ◌≡◌, refl, true, is_some}
use dnsconfd.Context.{Context, State, stopping, nothing, stop}
use dnsconfd.Fsm.Transition.{next, enter}
use dnsconfd.Fsm.Frames.{HasTable}
use dnsconfd.Fsm.Invariant.{IsSane, IsSound, past_start, wants_authority, wants_backup}
use dnsconfd.Fsm.Rounds.{sleeps, rank, Leads, entered}

pub stop_Leads :
    (s : State) (c : Context) → IsSane c → 1 < rank s → Leads s (next stop (enter c stopping))
stop_Leads s c h r = record {
  event = stop;
  after = enter c stopping;
  ran = refl;
  sound = record {
    sane = entered stopping h;
    table = λ x. cc;
    authority = λ x. cc;
    backup = λ x. cc;
  };
  ends = λ x. cc;
  goes = λ x. (refl, r);
}

-- A round that only waits for what comes next.
pub wait_Leads :
    (s t : State) (c : Context)
    → IsSane c
    → sleeps t ≡ true
    → (past_start t ≡ true → HasTable c)
    → (wants_authority t nothing ≡ true → is_some c.effective_ca ≡ true)
    → (wants_backup t nothing ≡ true → is_some c.resolv_conf_backup ≡ true)
    → Leads s (next nothing (enter c t))
wait_Leads s t c h z table authority backup = record {
  event = nothing;
  after = enter c t;
  ran = refl;
  sound = record { sane = entered t h; table = table; authority = authority; backup = backup };
  ends = λ x. z;
  goes = λ x. cc;
}

-- The same with no move.
pub stay_Leads :
    (s : State) (c : Context)
    → IsSound c nothing
    → sleeps c.current_state ≡ true
    → Leads s (next nothing c)
stay_Leads s c i z = record {
  event = nothing;
  after = c;
  ran = refl;
  sound = i;
  ends = λ x. z;
  goes = λ x. cc;
}
