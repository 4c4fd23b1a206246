-- ===== src/Daemon/Reachable.antt =====
-- Every sequence of calls, signals and job results from the start of the daemon.
use mathlib.Core.Option.{some-injective}
use dnsconfd.Prelude.{
  ℕ, ◌≡◌, refl, ◌∙◌, sym, subst, inl, inr, Option, none, some, List, [], Text, arith, All,
  Bool-cases,
}
use dnsconfd.Server.{Server}
use dnsconfd.Server.Zones.{HasZones, All-HasZones}
use dnsconfd.Server.Sorting.{SortLaws}
use dnsconfd.Config.{Config, Mode}
use dnsconfd.Env.{Env}
use dnsconfd.Context.{
  Context, Event, update, kickoff, reload, stop, exit_dbus_failure, exit_fsm_failure,
}
use dnsconfd.Fsm.Transition.{state_transition}
use dnsconfd.Fsm.Rounds.{handles}
use dnsconfd.Fsm.Total.{IsResting, state_transition-Settled, state_transition-rejected}
use dnsconfd.Ip.{InetLaws}
use dnsconfd.Ip.Laws.{IsStorage}
use dnsconfd.Daemon.Update.{ServerDict, Host, Parsed, error, parsed, parse_servers}
use dnsconfd.Daemon.Update.Laws.{HasBytes}
use dnsconfd.Daemon.Update.Servers.{parse_servers-IsComplete}
use dnsconfd.Daemon.Answer.{Reply, mode_of, reply, reply_to, reply_in, handle_update_call}
use dnsconfd.Daemon.{
  dbus_server_run, leave, accept, ignore, on_name_acquired, on_name_lost, on_sigterm,
  handle_reload_call, accept_update, on_systemd_job_finished, event_of_result,
}

-- A call from outside, with its arguments.
pub data Call : Type 0 where
  acquired lost terminate reload_call : Call
  update_call : ℕ → List ServerDict → Call
  job_finished : Text → Call

abbrev pub context_of : Option (Reply × Context) → Option Context
context_of none = none
context_of (some (r, ctx)) = some ctx

unfoldable pub handle : Host → Env → Call → Context → Option Context
unfolding on_name_acquired on_name_lost on_sigterm handle_reload_call accept_update
    on_systemd_job_finished
handle host env acquired ctx = on_name_acquired env ctx
handle host env lost ctx = some (on_name_lost ctx)
handle host env terminate ctx = on_sigterm env ctx
handle host env reload_call ctx = handle_reload_call env ctx
handle host env (update_call mode dicts) ctx =
    context_of (handle_update_call host env mode dicts ctx)
handle host env (job_finished result) ctx = on_systemd_job_finished env result ctx

-- The bytes of the addresses that arrive are bytes.
abbrev pub IsWire : Call → Type 0
IsWire (update_call mode dicts) = All (λ d. HasBytes d.address_bytes) dicts
IsWire _ = Unit

-- One handler returned.
abbrev pub Step : Host → Env → Context → Context → Type 0
Step host env c d = (call : Call) × IsWire call × (handle host env call c ≡ some d)

-- The contexts between the handlers.
pub data Reachable (host : Host) (env : Env) (config : Config) : Context → Type 0 where
  start : Reachable host env config (dbus_server_run config)
  step :
      {c d : Context}
      → Reachable host env config c
      → Step host env c d
      → Reachable host env config d

-- The handler returned, and the daemon rests again.
abbrev pub Returned : Option Context → Type 0
Returned r = (d : Context) × (r ≡ some d) × IsResting d

to_IsResting : {r : Option Context} {d : Context} → Returned r → r ≡ some d → IsResting d
to_IsResting {d = d} (after, returned, rests) ran =
    subst IsResting (some-injective after d (sym returned ∙ ran)) rests

leave-IsResting : (c : Context) (n : ℕ) → IsResting c → IsResting (leave c n)
unfolding leave
leave-IsResting c n r = record {
  sound = record {
    sane = record {
      static = r.sound.sane.static;
      current = r.sound.sane.current;
      coming = r.sound.sane.coming;
      serial_pos = r.sound.sane.serial_pos;
      serial_fits = r.sound.sane.serial_fits;
    };
    table = r.sound.table;
    authority = r.sound.authority;
    backup = r.sound.backup;
  };
  waits = r.waits;
}

dbus_server_run-IsResting :
    (config : Config) → All HasZones config.static_servers → IsResting (dbus_server_run config)
unfolding dbus_server_run
dbus_server_run-IsResting config h = record {
  sound = record {
    sane = record {
      static = h;
      current = tt;
      coming = tt;
      serial_pos = omega arith;
      serial_fits = omega arith;
    };
    table = λ x. cc;
    authority = λ x. cc;
    backup = λ x. cc;
  };
  waits = refl;
}

module _ (env : Env) (laws : SortLaws env.sort) (host : Host) (inet_laws : InetLaws host.net)
    (storage : (n : ℕ) → IsStorage (host.memory n)) where
  accept-Returned :
      (c : Context) (e : Event) → IsResting c → Returned (accept (state_transition env c e))
  unfolding accept
  accept-Returned c e r = elim (Bool-cases (handles c.current_state e)) [
    | inl h ↦ let s = state_transition-Settled env laws c e r h in (s.after, rw s.ran, s.rests)
    | inr h ↦ (
      leave c exit_fsm_failure,
      rw (state_transition-rejected env c e h),
      leave-IsResting c exit_fsm_failure r,
    )
  ]

  ignore-Returned :
      (c : Context) (e : Event) → IsResting c → Returned (ignore (state_transition env c e))
  ignore-Returned c e r = elim (Bool-cases (handles c.current_state e)) [
    | inl h ↦ let s = state_transition-Settled env laws c e r h in (s.after, rw s.ran, s.rests)
    | inr h ↦ (c, rw (state_transition-rejected env c e h), r)
  ]

  received :
      (mode : Mode) (servers : List Server) (c : Context)
      → All HasZones servers
      → IsResting c
      → IsResting (record c { new_dynamic_servers = servers; resolution_mode = mode })
  received mode servers c h r = record {
    sound = record {
      sane = record {
        static = r.sound.sane.static;
        current = r.sound.sane.current;
        coming = h;
        serial_pos = r.sound.sane.serial_pos;
        serial_fits = r.sound.sane.serial_fits;
      };
      table = r.sound.table;
      authority = r.sound.authority;
      backup = r.sound.backup;
    };
    waits = r.waits;
  }

  context_of-reply : (o : Option Context) → context_of (reply o) ≡ o
  context_of-reply none = refl
  context_of-reply (some c) = refl

  update-Returned :
      (mode : Option Mode) (dicts : List ServerDict) (c : Context)
      → All (λ d. HasBytes d.address_bytes) dicts
      → IsResting c
      → Returned (context_of (reply_in host env mode dicts c))
  unfolding accept_update
  update-Returned none dicts c b r = (c, refl, r)
  update-Returned (some mode) dicts c b r = go (parse_servers host dicts []) refl
    where
      go :
          (p : Parsed (List Server))
          → parse_servers host dicts [] ≡ p
          → Returned (context_of (reply_to env mode c p))
      go (error e) q = (c, refl, r)
      go (parsed servers) q =
          let zones =
            All-HasZones servers
              (parse_servers-IsComplete host inet_laws storage dicts servers b q).0 in
          subst Returned (sym (context_of-reply (accept_update env mode servers c))) (
            accept-Returned (record c { new_dynamic_servers = servers; resolution_mode = mode })
              update (received mode servers c zones r))

  -- In a daemon that waits with its invariant, the handler of every call returns, whatever the call
  -- and the environment are, and leaves the daemon waiting with its invariant. The
  -- documentation of `g_list_sort`, `inet_pton` and `inet_ntop` holds of the sort and the conversions, and
  -- the memory for a network is of the right size.
  pub handle-Returned :
      (call : Call) (c : Context) → IsWire call → IsResting c → Returned (handle host env call c)
  unfolding handle handle_update_call
  handle-Returned acquired c h r = accept-Returned c kickoff r
  handle-Returned lost c h r = (on_name_lost c, refl, leave-IsResting c exit_dbus_failure r)
  handle-Returned terminate c h r = accept-Returned c stop r
  handle-Returned reload_call c h r = accept-Returned c reload r
  handle-Returned (update_call mode dicts) c h r = update-Returned (mode_of mode) dicts c h r
  handle-Returned (job_finished result) c h r = ignore-Returned c (event_of_result result) r

  -- Whatever calls, signals and job results reach the daemon since its start, it waits in one of its
  -- waiting states between them, with a serial from 1 to 2^32 - 1 and with all that its state asks
  -- for: past the start a table of servers, while Unbound runs a CA and the content of resolv.conf
  -- from before. The networks of the static servers are addresses; the documentation of
  -- `g_list_sort`, `inet_pton` and `inet_ntop` holds of the sort and the conversions, and the memory for a
  -- network is of the right size.
  pub Reachable-IsResting :
      (config : Config)
      → All HasZones config.static_servers
      → {c : Context} → Reachable host env config c
      → IsResting c
  Reachable-IsResting config h start = dbus_server_run-IsResting config h
  Reachable-IsResting config h (step before (call, wire, ran)) =
      to_IsResting (handle-Returned call _ wire (Reachable-IsResting config h before)) ran
