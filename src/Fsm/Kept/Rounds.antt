-- ===== src/Fsm/Kept/Rounds.antt =====
-- What the rounds of `state_transition` in src/fsm/fsm.c never change, whichever they are.
use dnsconfd.Prelude.{ℕ, ◌≡◌, ◌∙◌, refl, inl, inr, Text, subst, Option, none, some, List, arith}
use dnsconfd.Server.{Server}
use dnsconfd.Config.{Mode}
use dnsconfd.Env.{Env, World}
use dnsconfd.Context.{
  Context, State, starting, configuring_dns_manager, submitting_start_job, waiting_for_start_job,
  setting_resolv_conf, updating_dns_manager, running, reverting_resolv_conf, submitting_stop_job,
  waiting_stop_job, stopping, Event, kickoff, success, failure, reload, job_success, job_failure,
  stop,
}
use dnsconfd.Service.{set_service_status}
use dnsconfd.Fsm.Actions.{
  update_context, set_dynamic_servers, fsm_configuring_dns_manager_event_success, submit_stop_job,
  revert_resolv_conf, set_exit_code, set_resolv_conf, update_dns_manager,
  fsm_starting_event_kickoff,
}
use dnsconfd.Fsm.Transition.{
  Round, refused, fault, next, dispatch, enter, followed, followed_into, reloading,
}
use dnsconfd.Fsm.Kept.{
  Keeps, IsFailureCode, Keeps-trans, set_resolv_conf-Keeps, update_dns_manager-Keeps, kickoff-Keeps,
  update_context-Keeps, set_dynamic_servers-Keeps,
}

-- If the round leads to a context, that context keeps what `c` has.
abbrev RoundKeeps : Context → Round → Type 0
RoundKeeps c refused = Unit
RoundKeeps c fault = Unit
RoundKeeps c (next e d) = Keeps c d

pub same_Keeps : (c : Context) → Keeps c c
same_Keeps c = record { config = refl; backup = λ b e. e; code = inl refl }

enter-Keeps : (c : Context) (s : State) → Keeps c (enter c s)
enter-Keeps c s = record { config = refl; backup = λ b e. e; code = inl refl }

coded_Keeps :
    (c : Context) (n : ℕ) (s : State) → IsFailureCode n → Keeps c (enter (set_exit_code c n) s)
unfolding set_exit_code
coded_Keeps c n s h = record {
  config = ground arith;
  backup = λ b e. ground arith;
  code = ground (arith, h);
}

noted_Keeps : (env : Env) (c : Context) → Keeps c (update_context env (set_dynamic_servers c))
noted_Keeps env c =
    Keeps-trans (set_dynamic_servers-Keeps c) (update_context-Keeps env (set_dynamic_servers c))

followed-Keeps :
    (c d : Context) (o : Option (Event × Context))
    → Keeps c d
    → ((r : Event × Context) → o ≡ some r → Keeps d r.1)
    → RoundKeeps c (followed o)
followed-Keeps c d none k f = tt
followed-Keeps c d (some (e, x)) k f = Keeps-trans k (f (e, x) refl)

followed_into-Keeps :
    (c : Context) (s : State) (o : Option (Event × Context))
    → ((r : Event × Context) → o ≡ some r → Keeps c r.1)
    → RoundKeeps c (followed_into s o)
followed_into-Keeps c s none f = tt
followed_into-Keeps c s (some (e, x)) f = Keeps-trans (f (e, x) refl) (enter-Keeps x s)

submit_Keeps : (env : Env) (c : Context) → Keeps c (submit_stop_job env c).1
unfolding submit_stop_job set_service_status
submit_Keeps env c = record {
  config = ground arith;
  backup = λ b e. ground arith;
  code = inl (ground arith);
}

start_job_Keeps :
    (env : Env) (c : Context) → Keeps c (fsm_configuring_dns_manager_event_success env c).1
unfolding fsm_configuring_dns_manager_event_success set_service_status
start_job_Keeps env c = record {
  config = ground arith;
  backup = λ b e. ground arith;
  code = inl (ground arith);
}

revert_Keeps :
    (env : Env) (c : Context) (r : Event × Context)
    → revert_resolv_conf env c ≡ some r
    → Keeps c r.1
unfolding revert_resolv_conf
revert_Keeps env c r h = record {
  config = ground (arith, h);
  backup = λ b e. ground (arith, h);
  code = inl (ground (arith, h));
}

module _ (env : Env) (c : Context) where
  stopped : Keeps c (enter c stopping)
  stopped = enter-Keeps c stopping

  submitted : (d : Context) → Keeps c d → Keeps c (submit_stop_job env d).1
  submitted d k = Keeps-trans k (submit_Keeps env d)

  kicked : (d : Context) → Keeps c d → RoundKeeps c (followed (fsm_starting_event_kickoff env d))
  kicked d k = followed-Keeps c d (fsm_starting_event_kickoff env d) k (kickoff-Keeps env d)

  reverted : (d : Context) → Keeps c d → RoundKeeps c (followed (revert_resolv_conf env d))
  reverted d k = followed-Keeps c d (revert_resolv_conf env d) k (revert_Keeps env d)

  set : (d : Context) → Keeps c d → RoundKeeps c (followed (set_resolv_conf env d))
  set d k = followed-Keeps c d (set_resolv_conf env d) k (set_resolv_conf-Keeps env d)

  round_Keeps : (s : State) (e : Event) → RoundKeeps c (dispatch s e env c)
  unfolding dispatch
  round_Keeps starting Event.update = noted_Keeps env c
  round_Keeps starting kickoff =
      followed_into-Keeps c configuring_dns_manager (fsm_starting_event_kickoff env c)
        (kickoff-Keeps env c)
  round_Keeps starting reload = same_Keeps c
  round_Keeps starting stop = stopped
  round_Keeps configuring_dns_manager success =
      Keeps-trans (start_job_Keeps env c) (enter-Keeps _ submitting_start_job)
  round_Keeps configuring_dns_manager failure = stopped
  round_Keeps submitting_start_job success = enter-Keeps c waiting_for_start_job
  round_Keeps submitting_start_job failure = stopped
  round_Keeps waiting_for_start_job job_success =
      set (enter c setting_resolv_conf) (enter-Keeps c setting_resolv_conf)
  round_Keeps waiting_for_start_job job_failure = coded_Keeps c _ stopping (inl refl)
  round_Keeps waiting_for_start_job Event.update = noted_Keeps env c
  round_Keeps waiting_for_start_job reload =
      kicked (enter c configuring_dns_manager) (enter-Keeps c configuring_dns_manager)
  round_Keeps waiting_for_start_job stop =
      submitted (enter c submitting_stop_job) (enter-Keeps c submitting_stop_job)
  round_Keeps setting_resolv_conf success =
      let d = enter c updating_dns_manager in
      followed-Keeps c d (update_dns_manager env d) (enter-Keeps c updating_dns_manager)
        (update_dns_manager-Keeps env d)
  round_Keeps setting_resolv_conf failure =
      submitted _ (coded_Keeps c _ submitting_stop_job (inr (inl refl)))
  round_Keeps updating_dns_manager success = enter-Keeps c running
  round_Keeps updating_dns_manager failure =
      reverted _ (coded_Keeps c _ reverting_resolv_conf (inr (inr refl)))
  round_Keeps updating_dns_manager reload =
      kicked (enter (reloading c) configuring_dns_manager)
        (record { config = refl; backup = λ b e. e; code = inl refl })
  round_Keeps running Event.update =
      set _ (Keeps-trans (noted_Keeps env c) (enter-Keeps _ setting_resolv_conf))
  round_Keeps running reload =
      kicked (enter (reloading c) configuring_dns_manager)
        (record { config = refl; backup = λ b e. e; code = inl refl })
  round_Keeps running stop =
      reverted (enter c reverting_resolv_conf) (enter-Keeps c reverting_resolv_conf)
  round_Keeps reverting_resolv_conf success =
      submitted (enter c submitting_stop_job) (enter-Keeps c submitting_stop_job)
  round_Keeps reverting_resolv_conf failure =
      submitted (enter c submitting_stop_job) (enter-Keeps c submitting_stop_job)
  round_Keeps submitting_stop_job success = enter-Keeps c waiting_stop_job
  round_Keeps submitting_stop_job failure = stopped
  round_Keeps waiting_stop_job job_failure = stopped
  round_Keeps waiting_stop_job job_success = stopped
  round_Keeps waiting_stop_job Event.update = same_Keeps c
  round_Keeps waiting_stop_job reload = same_Keeps c
  round_Keeps waiting_stop_job stop = same_Keeps c
  round_Keeps stopping stop = record { config = refl; backup = λ b e. e; code = inl refl }
  round_Keeps _ _ = tt

  pub dispatch-Keeps :
      (s : State) (e f : Event) (d : Context) → dispatch s e env c ≡ next f d → Keeps c d
  dispatch-Keeps s e f d h = subst (RoundKeeps c) h (round_Keeps s e)

-- Any number of rounds of the machine; between two of them the handlers may store new servers and their
-- mode, set the exit code, and act on the world.
pub data Rounds (env : Env) : Context → Context → Type 0 where
  over : {c : Context} → Rounds env c c
  round :
      {c d x : Context} (e f : Event)
      → dispatch c.current_state e env c ≡ next f d
      → Rounds env d x
      → Rounds env c x
  between :
      {c x : Context} (servers : List Server) (mode : Mode) (code : ℕ) (w : World)
      → Rounds env
          (record c {
            new_dynamic_servers = servers;
            resolution_mode = mode;
            exit_code = code;
            world = w;
          })
          x
      → Rounds env c x

-- They keep the configuration and a backup that is there.
pub Rounds-kept :
    {env : Env} {c x : Context}
    → Rounds env c x
    → (x.config ≡ c.config)
      × ((b : Text) → c.resolv_conf_backup ≡ some b → x.resolv_conf_backup ≡ some b)
Rounds-kept over = (refl, λ b e. e)
Rounds-kept {env} {c} (round {d = d} e f h rest) =
    let k = dispatch-Keeps env c c.current_state e f d h in
    let (config, backup) = Rounds-kept rest in (config ∙ k.config, λ b q. backup b (k.backup b q))
Rounds-kept (between servers mode code w rest) = Rounds-kept rest
