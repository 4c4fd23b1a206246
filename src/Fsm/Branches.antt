-- ===== src/Fsm/Branches.antt =====
-- The branches of `state_transition` in src/fsm/fsm.c, by the action that they take.
pub mod Ends
use dnsconfd.Prelude.{◌<◌, ◌≡◌, refl, ◌∙◌, true, Option, none, some, Text, arith, is_some}
use dnsconfd.Server.Sorting.{SortLaws}
use dnsconfd.Env.{Env}
use dnsconfd.Context.{
  Context, State, configuring_dns_manager, submitting_start_job, setting_resolv_conf,
  updating_dns_manager, reverting_resolv_conf, submitting_stop_job, stopping, nothing, stop,
}
use dnsconfd.Fsm.Actions.{
  fsm_starting_event_kickoff, fsm_configuring_dns_manager_event_success, set_resolv_conf,
  update_dns_manager, submit_stop_job, revert_resolv_conf,
}
use dnsconfd.Fsm.Transition.{next, enter, followed, followed_into}
use dnsconfd.Fsm.Frames.{HasTable, revert_resolv_conf-Acted, submit_stop_job-Acted, start_job-Acted}
use dnsconfd.Fsm.Running.{set_resolv_conf-Acted, update_dns_manager-Acted}
use dnsconfd.Fsm.Invariant.{
  IsSane, IsSound, past_start, wants_authority, wants_backup, IsSane-Frame, HasTable-Frame,
  kickoff-Started,
}
use dnsconfd.Fsm.Rounds.{sleeps, rank, Leads, entered}

module _ (env : Env) where
  pub submit_Leads :
      (s : State) (d : Context)
      → IsSane d
      → HasTable d
      → d.current_state ≡ submitting_stop_job
      → 2 < rank s
      → Leads s (next (submit_stop_job env d).0 (submit_stop_job env d).1)
  submit_Leads s d h t q r =
      let (a, o, _, _) = submit_stop_job-Acted env d in
      let state : a.after.current_state ≡ submitting_stop_job = a.frame.state ∙ q in
      record {
        event = a.event;
        after = a.after;
        ran = ground (arith, a.ran);
        sound = record {
          sane = IsSane-Frame h a.frame;
          table = λ x. HasTable-Frame t a.frame;
          authority = ground (arith, state);
          backup = ground (arith, state);
        };
        ends = ground (arith, state, o);
        goes = ground (arith, state, o);
      }

  pub revert_Leads :
      (s : State) (d : Context)
      → IsSane d
      → HasTable d
      → d.current_state ≡ reverting_resolv_conf
      → is_some d.resolv_conf_backup ≡ true
      → 3 < rank s
      → Leads s (followed (revert_resolv_conf env d))
  revert_Leads s d h t q b r = known d.resolv_conf_backup refl b
    where
      known :
          (o : Option Text)
          → d.resolv_conf_backup ≡ o
          → is_some o ≡ true
          → Leads s (followed (revert_resolv_conf env d))
      known none e x = cc
      known (some content) e x =
          let (a, o, _, _) = revert_resolv_conf-Acted env d content e in
          let state : a.after.current_state ≡ reverting_resolv_conf = a.frame.state ∙ q in
          let kept : a.after.resolv_conf_backup ≡ some content = a.backup content e in
          record {
            event = a.event;
            after = a.after;
            ran = rw a.ran;
            sound = record {
              sane = IsSane-Frame h a.frame;
              table = λ x. HasTable-Frame t a.frame;
              authority = ground (arith, state);
              backup = λ x. rw kept;
            };
            ends = ground (arith, state, o);
            goes = ground (arith, state, o);
          }

  pub set_Leads :
      (s : State) (d : Context)
      → IsSane d
      → HasTable d
      → d.current_state ≡ setting_resolv_conf
      → is_some d.effective_ca ≡ true
      → 5 < rank s
      → Leads s (followed (set_resolv_conf env d))
  set_Leads s d h t q k r =
      let (a, o, b, _, _) = set_resolv_conf-Acted env d t in
      let state : a.after.current_state ≡ setting_resolv_conf = a.frame.state ∙ q in
      record {
        event = a.event;
        after = a.after;
        ran = rw a.ran;
        sound = record {
          sane = IsSane-Frame h a.frame;
          table = λ x. HasTable-Frame t a.frame;
          authority = λ x. a.authority k;
          backup = ground (arith, state, o, b);
        };
        ends = ground (arith, state, o);
        goes = ground (arith, state, o);
      }

  pub update_Leads :
      (s : State) (d : Context)
      → IsSane d
      → HasTable d
      → d.current_state ≡ updating_dns_manager
      → is_some d.effective_ca ≡ true
      → is_some d.resolv_conf_backup ≡ true
      → 4 < rank s
      → Leads s (followed (update_dns_manager env d))
  update_Leads s d h t q k b r =
      let (a, o, _, _) = update_dns_manager-Acted env d t k in
      let state : a.after.current_state ≡ updating_dns_manager = a.frame.state ∙ q in
      record {
        event = a.event;
        after = a.after;
        ran = rw a.ran;
        sound = record {
          sane = IsSane-Frame h a.frame;
          table = λ x. HasTable-Frame t a.frame;
          authority = λ x. a.authority k;
          backup = λ x. still_some d.resolv_conf_backup a.after.resolv_conf_backup b a.backup;
        };
        ends = ground (arith, state, o);
        goes = ground (arith, state, o);
      }
    where
      still_some :
          (o p : Option Text)
          → is_some o ≡ true
          → ((b : Text) → o ≡ some b → p ≡ some b)
          → is_some p ≡ true
      still_some none p x keep = cc
      still_some (some b) p x keep = rw (keep b refl)

  pub start_job_Leads :
      (s : State) (c : Context)
      → IsSane c
      → HasTable c
      → is_some c.effective_ca ≡ true
      → 2 < rank s
      → let (e, c') = fsm_configuring_dns_manager_event_success env c in
        Leads s (next e (enter c' submitting_start_job))
  start_job_Leads s c h t k r =
      let (a, o, _, _) = start_job-Acted env c in
      record {
        event = a.event;
        after = enter a.after submitting_start_job;
        ran = ground (arith, a.ran);
        sound = record {
          sane = entered submitting_start_job (IsSane-Frame h a.frame);
          table = λ x. HasTable-Frame t a.frame;
          authority = λ x. a.authority k;
          backup = λ x. cc;
        };
        ends = ground (arith, o);
        goes = ground (arith, o);
      }

  pub kickoff_Leads :
      SortLaws env.sort
      → (s : State) (d : Context) → IsSane d
      → d.current_state ≡ configuring_dns_manager
      → 3 < rank s
      → Leads s (followed (fsm_starting_event_kickoff env d))
  kickoff_Leads laws s d h q r =
      let k = kickoff-Started env laws d h in
      let state : k.after.current_state ≡ configuring_dns_manager = k.state ∙ q in
      let o = k.outcome in
      record {
        event = k.event;
        after = k.after;
        ran = rw k.ran;
        sound = record {
          sane = k.sane;
          table = λ x. k.table;
          authority = ground (arith, state, o, k.authority);
          backup = ground (arith, state, o);
        };
        ends = ground (arith, state, o);
        goes = ground (arith, state, o);
      }

  pub first_kickoff_Leads :
      SortLaws env.sort
      → (s : State) (d : Context) → IsSane d
      → 3 < rank s
      → Leads s (followed_into configuring_dns_manager (fsm_starting_event_kickoff env d))
  first_kickoff_Leads laws s d h r =
      let k = kickoff-Started env laws d h in
      let o = k.outcome in
      record {
        event = k.event;
        after = enter k.after configuring_dns_manager;
        ran = rw k.ran;
        sound = record {
          sane = entered configuring_dns_manager k.sane;
          table = λ x. k.table;
          authority = ground (arith, o, k.authority);
          backup = λ x. cc;
        };
        ends = ground (arith, o);
        goes = ground (arith, o);
      }
