-- ===== src/Fsm/Safety.antt =====
-- The branches of the two switches of `state_transition` in src/fsm/fsm.c, state by state.
use dnsconfd.Prelude.{ℕ, ◌≡◌, refl, ap, ◌∙◌, true, false, arith, is_some}
use dnsconfd.Server.Sorting.{SortLaws}
use dnsconfd.Env.{Env}
use dnsconfd.Context.{
  Context, State, starting, configuring_dns_manager, submitting_start_job, waiting_for_start_job,
  setting_resolv_conf, updating_dns_manager, running, reverting_resolv_conf, submitting_stop_job,
  waiting_stop_job, stopping, Event, nothing, kickoff, success, failure, reload, job_success,
  job_failure, stop, exit_service_failure, exit_resolv_conf_failure, exit_update_failure,
}
use dnsconfd.Fsm.Actions.{set_dynamic_servers, update_context, set_exit_code}
use dnsconfd.Fsm.Transition.{next, dispatch, enter, reloading, quit_loop}
use dnsconfd.Fsm.Frames.{HasTable}
use dnsconfd.Fsm.Invariant.{
  IsSane, IsSound, past_start, wants_authority, wants_backup, set_dynamic_servers-IsSane,
  update_context-IsSane,
}
use dnsconfd.Fsm.Rounds.{handles, sleeps, Leads, entered, coded}
use dnsconfd.Fsm.Branches.Ends.{stop_Leads, wait_Leads, stay_Leads}
use dnsconfd.Fsm.Branches.{
  submit_Leads, revert_Leads, set_Leads, update_Leads, start_job_Leads, kickoff_Leads,
  first_kickoff_Leads,
}

coded_table : (c : Context) (n : ℕ) → HasTable c → HasTable (set_exit_code c n)
unfolding set_exit_code
coded_table c n (t, e, h) = (t, ground arith, h)

coded_backup :
    (c : Context) (n : ℕ)
    → is_some c.resolv_conf_backup ≡ true
    → is_some (set_exit_code c n).resolv_conf_backup ≡ true
unfolding set_exit_code
coded_backup c n h = ground arith

reloaded : {c : Context} → IsSane c → IsSane (enter (reloading c) configuring_dns_manager)
reloaded h = record {
  static = h.static;
  current = h.current;
  coming = h.coming;
  serial_pos = h.serial_pos;
  serial_fits = h.serial_fits;
}

looped : {c : Context} → IsSane c → IsSane (quit_loop c)
looped h = record {
  static = h.static;
  current = h.current;
  coming = h.coming;
  serial_pos = h.serial_pos;
  serial_fits = h.serial_fits;
}

-- An event without any effect, in a state that asks for nothing of the event.
ignored :
    (s : State) (e : Event) (c : Context)
    → IsSound c e
    → c.current_state ≡ s
    → sleeps s ≡ true
    → wants_authority s nothing ≡ false
    → Leads s (next nothing c)
ignored s e c i q z w =
    stay_Leads s c
      (record {
        sane = i.sane;
        table = i.table;
        authority = ground (arith, q, i.authority);
        backup = ground (arith, q, i.backup);
      })
      (ap sleeps q ∙ z)

-- An update that is only noted: the servers are read anew, and nothing else changes.
abbrev pub noted : (env : Env) → Context → Context
noted env c = update_context env (set_dynamic_servers c)

module _ (env : Env) (laws : SortLaws env.sort) where
  noted-IsSane : (c : Context) → IsSane c → IsSane (noted env c) × HasTable (noted env c)
  noted-IsSane c h =
      update_context-IsSane env laws (set_dynamic_servers c) (set_dynamic_servers-IsSane c h)

  noted-IsSound :
      (c : Context) (e f : Event)
      → sleeps c.current_state ≡ true
      → IsSound c e
      → IsSound (noted env c) f
  unfolding update_context set_dynamic_servers
  noted-IsSound c e f z i =
      let (sane, table) = noted-IsSane c i.sane in
      record {
        sane = sane;
        table = λ x. table;
        authority = ground (arith, i.authority);
        backup = ground (arith, i.backup);
      }

  round_start :
      (e : Event) (c : Context)
      → c.current_state ≡ starting
      → handles starting e ≡ true
      → IsSound c e
      → Leads starting (dispatch starting e env c)
  unfolding dispatch
  round_start Event.update c q h i =
      stay_Leads starting (noted env c) (noted-IsSound c Event.update nothing (ap sleeps q) i)
        (unfold update_context set_dynamic_servers in ap sleeps q)
  round_start kickoff c q h i = first_kickoff_Leads env laws starting c i.sane (omega arith)
  round_start reload c q h i =
      stay_Leads starting c
        (record {
          sane = i.sane;
          table = i.table;
          authority = ground (arith, q);
          backup = ground (arith, q);
        })
        (ap sleeps q)
  round_start stop c q h i = stop_Leads starting c i.sane (omega arith)
  round_start _ c q h i = cc

  pub round_Leads :
      (s : State) (e : Event) (c : Context)
      → c.current_state ≡ s
      → handles s e ≡ true
      → IsSound c e
      → Leads s (dispatch s e env c)
  unfolding dispatch
  round_Leads starting e c q h i = round_start e c q h i
  round_Leads configuring_dns_manager success c q h i =
      start_job_Leads env configuring_dns_manager c i.sane (i.table (ap past_start q))
        (i.authority (ap (λ t. wants_authority t success) q)) (omega arith)
  round_Leads configuring_dns_manager failure c q h i =
      stop_Leads configuring_dns_manager c i.sane (omega arith)
  round_Leads submitting_start_job success c q h i =
      wait_Leads submitting_start_job waiting_for_start_job c i.sane refl
        (λ x. i.table (ap past_start q)) (λ x. i.authority (ap (λ t. wants_authority t success) q))
        (λ x. cc)
  round_Leads submitting_start_job failure c q h i =
      stop_Leads submitting_start_job c i.sane (omega arith)
  round_Leads waiting_for_start_job job_success c q h i =
      set_Leads env waiting_for_start_job (enter c setting_resolv_conf)
        (entered setting_resolv_conf i.sane) (i.table (ap past_start q)) refl
        (i.authority (ap (λ t. wants_authority t job_success) q)) (omega arith)
  round_Leads waiting_for_start_job job_failure c q h i =
      stop_Leads waiting_for_start_job (set_exit_code c exit_service_failure)
        (coded exit_service_failure i.sane) (omega arith)
  round_Leads waiting_for_start_job Event.update c q h i =
      stay_Leads waiting_for_start_job (noted env c)
        (noted-IsSound c Event.update nothing (ap sleeps q) i)
        (unfold update_context set_dynamic_servers in ap sleeps q)
  round_Leads waiting_for_start_job reload c q h i =
      kickoff_Leads env laws waiting_for_start_job (enter c configuring_dns_manager)
        (entered configuring_dns_manager i.sane) refl (omega arith)
  round_Leads waiting_for_start_job stop c q h i =
      submit_Leads env waiting_for_start_job (enter c submitting_stop_job)
        (entered submitting_stop_job i.sane) (i.table (ap past_start q)) refl (omega arith)
  round_Leads setting_resolv_conf success c q h i =
      update_Leads env setting_resolv_conf (enter c updating_dns_manager)
        (entered updating_dns_manager i.sane) (i.table (ap past_start q)) refl
        (i.authority (ap (λ t. wants_authority t success) q))
        (i.backup (ap (λ t. wants_backup t success) q)) (omega arith)
  round_Leads setting_resolv_conf failure c q h i =
      submit_Leads env setting_resolv_conf
        (enter (set_exit_code c exit_resolv_conf_failure) submitting_stop_job)
        (entered submitting_stop_job (coded exit_resolv_conf_failure i.sane))
        (coded_table c exit_resolv_conf_failure (i.table (ap past_start q))) refl (omega arith)
  round_Leads updating_dns_manager success c q h i =
      wait_Leads updating_dns_manager running c i.sane refl (λ x. i.table (ap past_start q))
        (λ x. i.authority (ap (λ t. wants_authority t success) q))
        (λ x. i.backup (ap (λ t. wants_backup t success) q))
  round_Leads updating_dns_manager failure c q h i =
      revert_Leads env updating_dns_manager
        (enter (set_exit_code c exit_update_failure) reverting_resolv_conf)
        (entered reverting_resolv_conf (coded exit_update_failure i.sane))
        (coded_table c exit_update_failure (i.table (ap past_start q))) refl
        (coded_backup c exit_update_failure (i.backup (ap (λ t. wants_backup t failure) q)))
        (omega arith)
  round_Leads updating_dns_manager reload c q h i =
      kickoff_Leads env laws updating_dns_manager (enter (reloading c) configuring_dns_manager)
        (reloaded i.sane) refl (omega arith)
  round_Leads running Event.update c q h i =
      let (sane, table) = noted-IsSane c i.sane in
      set_Leads env running (enter (noted env c) setting_resolv_conf)
        (entered setting_resolv_conf sane) table refl
        (unfold update_context set_dynamic_servers in
          i.authority (ap (λ t. wants_authority t Event.update) q))
        (omega arith)
  round_Leads running reload c q h i =
      kickoff_Leads env laws running (enter (reloading c) configuring_dns_manager) (reloaded i.sane)
        refl (omega arith)
  round_Leads running stop c q h i =
      revert_Leads env running (enter c reverting_resolv_conf)
        (entered reverting_resolv_conf i.sane) (i.table (ap past_start q)) refl
        (i.backup (ap (λ t. wants_backup t stop) q)) (omega arith)
  round_Leads reverting_resolv_conf success c q h i =
      submit_Leads env reverting_resolv_conf (enter c submitting_stop_job)
        (entered submitting_stop_job i.sane) (i.table (ap past_start q)) refl (omega arith)
  round_Leads reverting_resolv_conf failure c q h i =
      submit_Leads env reverting_resolv_conf (enter c submitting_stop_job)
        (entered submitting_stop_job i.sane) (i.table (ap past_start q)) refl (omega arith)
  round_Leads submitting_stop_job success c q h i =
      wait_Leads submitting_stop_job waiting_stop_job c i.sane refl (λ x. i.table (ap past_start q))
        (λ x. cc) (λ x. cc)
  round_Leads submitting_stop_job failure c q h i =
      stop_Leads submitting_stop_job c i.sane (omega arith)
  round_Leads waiting_stop_job job_failure c q h i =
      stop_Leads waiting_stop_job c i.sane (omega arith)
  round_Leads waiting_stop_job job_success c q h i =
      stop_Leads waiting_stop_job c i.sane (omega arith)
  round_Leads waiting_stop_job Event.update c q h i =
      ignored waiting_stop_job Event.update c i q refl refl
  round_Leads waiting_stop_job reload c q h i = ignored waiting_stop_job reload c i q refl refl
  round_Leads waiting_stop_job stop c q h i = ignored waiting_stop_job stop c i q refl refl
  round_Leads stopping stop c q h i = record {
    event = nothing;
    after = quit_loop c;
    ran = refl;
    sound = record {
      sane = looped i.sane;
      table = ground (arith, q);
      authority = ground (arith, q);
      backup = ground (arith, q);
    };
    ends = λ x. ap sleeps q;
    goes = λ x. cc;
  }
  round_Leads _ _ c q h i = cc
