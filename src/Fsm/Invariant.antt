-- ===== src/Fsm/Invariant.antt =====
-- The invariant of the context of src/fsm/fsm.c, state by state.
use dnsconfd.Prelude.{
  ℕ, ◌<◌, ◌≡◌, ◌≢◌, refl, sym, subst, ◌∙◌, Bool, true, false, inr, Option, some, ◌++◌, arith,
  is_some, All, All-append,
}
use dnsconfd.Server.Sorting.{SortLaws}
use dnsconfd.Server.Zones.{HasZones, table_total}
use dnsconfd.Env.{Env}
use dnsconfd.Context.{
  Context, State, starting, configuring_dns_manager, submitting_start_job, waiting_for_start_job,
  setting_resolv_conf, updating_dns_manager, running, reverting_resolv_conf, stopping, Event,
  success, failure,
}
use dnsconfd.Service.{service_management_subscribe_job_removed}
use dnsconfd.Fsm.Actions.{
  update_context, then_write, fsm_starting_event_kickoff, set_dynamic_servers, next_serial,
  event_of,
}
use dnsconfd.Fsm.Frames.{Frame, HasTable, SuccessOrFailure, write_configuration-Wrote}

abbrev pub is_success : Event → Bool
is_success success = true
is_success _ = false

-- The states that are reached only by way of the start.
abbrev pub past_start : State → Bool
past_start starting = false
past_start stopping = false
past_start _ = true

-- A CA has been chosen for Unbound.
abbrev pub wants_authority : State → Event → Bool
wants_authority configuring_dns_manager e = is_success e
wants_authority submitting_start_job e = true
wants_authority waiting_for_start_job e = true
wants_authority setting_resolv_conf e = true
wants_authority updating_dns_manager e = true
wants_authority running e = true
wants_authority _ e = false

-- The content that resolv.conf had before the daemon wrote it is kept.
abbrev pub wants_backup : State → Event → Bool
wants_backup setting_resolv_conf e = is_success e
wants_backup updating_dns_manager e = true
wants_backup running e = true
wants_backup reverting_resolv_conf e = true
wants_backup _ e = false

-- In every state: the networks of all servers are addresses, and the serial is a `uint32` that is
-- not 0, which the D-Bus reply of a refused update is.
pub record IsSane (c : Context) : Type 0 where
  pub static : All HasZones c.config.static_servers
  pub current : All HasZones c.current_dynamic_servers
  pub coming : All HasZones c.new_dynamic_servers
  pub serial_pos : 0 < c.requested_configuration_serial
  pub serial_fits : c.requested_configuration_serial < 0x1_0000_0000

-- The same with what the state asks for, when the event is to be handled next.
pub record IsSound (c : Context) (e : Event) : Type 0 where
  pub sane : IsSane c
  pub table : past_start c.current_state ≡ true → HasTable c
  pub authority : wants_authority c.current_state e ≡ true → is_some c.effective_ca ≡ true
  pub backup : wants_backup c.current_state e ≡ true → is_some c.resolv_conf_backup ≡ true

pub IsSane-Frame : {c d : Context} → IsSane c → Frame c d → IsSane d
IsSane-Frame s f = record {
  static = subst (λ g. All HasZones g.static_servers) (sym f.config) s.static;
  current = subst (All HasZones) (sym f.current) s.current;
  coming = subst (All HasZones) (sym f.coming) s.coming;
  serial_pos = ground arith;
  serial_fits = ground arith;
}

pub HasTable-Frame : {c d : Context} → HasTable c → Frame c d → HasTable d
HasTable-Frame (t, e, h) f = (t, f.table ∙ e, h)

-- From a serial that fits `uint32`, the next serial is again a `uint32`, is not 0, and differs from the
-- one before.
pub next_serial_lem :
    (n : ℕ)
    → n < 0x1_0000_0000
    → (0 < next_serial n) × (next_serial n < 0x1_0000_0000) × (next_serial n ≢ n)
unfolding next_serial
next_serial_lem n h = ground arith

pub set_dynamic_servers-IsSane : (c : Context) → IsSane c → IsSane (set_dynamic_servers c)
unfolding set_dynamic_servers
set_dynamic_servers-IsSane c s = record {
  static = s.static;
  current = s.coming;
  coming = tt;
  serial_pos = s.serial_pos;
  serial_fits = s.serial_fits;
}

subscribed : (env : Env) (c : Context) → Frame c (service_management_subscribe_job_removed env c).1
unfolding service_management_subscribe_job_removed
subscribed env c = ground arith

-- The start: the servers are read anew, and Unbound's configuration is written.
pub record Started (c : Context) (r : Option (Event × Context)) : Type 0 where
  pub event : Event
  pub after : Context
  pub ran : r ≡ some (event, after)
  pub outcome : SuccessOrFailure event
  pub sane : IsSane after
  pub table : HasTable after
  pub authority : event ≡ success → is_some after.effective_ca ≡ true
  pub state : after.current_state ≡ c.current_state
  pub backup : after.resolv_conf_backup ≡ c.resolv_conf_backup
  pub exit : after.exit_code ≡ c.exit_code
  pub mode : after.resolution_mode ≡ c.resolution_mode
  pub serial : after.requested_configuration_serial ≡ next_serial c.requested_configuration_serial

module _ (env : Env) (laws : SortLaws env.sort) where
  pub update_context-IsSane :
      (c : Context) → IsSane c → IsSane (update_context env c) × HasTable (update_context env c)
  unfolding update_context
  update_context-IsSane c s =
      let all = c.config.static_servers ++ c.current_dynamic_servers in
      let next = next_serial_lem c.requested_configuration_serial s.serial_fits in
      (
        record {
          static = s.static;
          current = s.current;
          coming = s.coming;
          serial_pos = next.0;
          serial_fits = next.1;
        },
        table_total laws all (
            All-append HasZones c.config.static_servers c.current_dynamic_servers s.static
              s.current),
      )

  pub kickoff-Started : (c : Context) → IsSane c → Started c (fsm_starting_event_kickoff env c)
  unfolding fsm_starting_event_kickoff
  kickoff-Started c s =
      go (service_management_subscribe_job_removed env (update_context env c))
        (subscribed env (update_context env c)) (backed (update_context env c))
    where
      backed :
          (d : Context)
          → (service_management_subscribe_job_removed env d).1.resolv_conf_backup
            ≡ d.resolv_conf_backup
      backed d = unfold service_management_subscribe_job_removed in refl

      go :
          (p : Bool × Context)
          → Frame (update_context env c) p.1
          → p.1.resolv_conf_backup ≡ (update_context env c).resolv_conf_backup
          → Started c (then_write env p)
      go (false, d) f b =
          let (s', h') = update_context-IsSane c s in
          record {
            event = failure;
            after = d;
            ran = refl;
            outcome = inr refl;
            sane = IsSane-Frame s' f;
            table = HasTable-Frame h' f;
            authority = λ e. cc;
            state = unfold update_context in f.state;
            backup = unfold update_context in b;
            exit = unfold update_context in f.exit;
            mode = unfold update_context in f.mode;
            serial = unfold update_context in f.requested;
          }
      go (true, d) f b =
          let (s', h') = update_context-IsSane c s in
          let w = write_configuration-Wrote env d (HasTable-Frame h' f) in
          record {
            event = (event_of (w.fine, w.after)).0;
            after = w.after;
            ran = rw w.ran;
            outcome = ground arith;
            sane = IsSane-Frame (IsSane-Frame s' f) w.frame;
            table = HasTable-Frame (HasTable-Frame h' f) w.frame;
            authority = ground (arith, w.authority);
            state = unfold update_context in (w.frame.state ∙ f.state);
            backup = unfold update_context in (w.backup ∙ b);
            exit = unfold update_context in (w.frame.exit ∙ f.exit);
            mode = unfold update_context in (w.frame.mode ∙ f.mode);
            serial = unfold update_context in (w.frame.requested ∙ f.requested);
          }
