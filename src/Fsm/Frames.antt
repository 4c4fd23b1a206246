-- ===== src/Fsm/Frames.antt =====
-- What the actions of the state machine in src/fsm/fsm.c leave alone.
use dnsconfd.Prelude.{
  ◌≡◌, refl, sym, subst, ◌∙◌, Bool, true, false, ◌⊎◌, inl, inr, Option, none, some, List, ◌++◌,
  Text, codes, arith, ◌>>=◌, Bool-cases, is_some,
}
use dnsconfd.HashTable.{Table}
use dnsconfd.Server.{Server}
use dnsconfd.Server.Table.{HasServers}
use dnsconfd.Env.{Env, World}
use dnsconfd.Context.{Context, Event, success, failure}
use dnsconfd.Service.{set_service_status}
use dnsconfd.Unbound.Zones.{Output}
use dnsconfd.Unbound.Write.{
  write_configuration, write_opened_configuration, write_authority, write_zones, write_rpz,
}
use dnsconfd.Unbound.Total.{generate_forward_zones_total}
use dnsconfd.Fsm.Actions.{
  submit_stop_job, revert_resolv_conf, revert_with, fsm_configuring_dns_manager_event_success,
}

-- The configuration, the lists of servers, the mode, the exit code, the requested serial and the
-- state are the same.
pub record Frame (c d : Context) : Type 0 where
  pub state : d.current_state ≡ c.current_state
  pub config : d.config ≡ c.config
  pub current : d.current_dynamic_servers ≡ c.current_dynamic_servers
  pub coming : d.new_dynamic_servers ≡ c.new_dynamic_servers
  pub all : d.all_servers ≡ c.all_servers
  pub table : d.current_domain_to_servers ≡ c.current_domain_to_servers
  pub exit : d.exit_code ≡ c.exit_code
  pub requested : d.requested_configuration_serial ≡ c.requested_configuration_serial
  pub mode : d.resolution_mode ≡ c.resolution_mode

-- A table is there, and each of its entries has a server.
abbrev pub HasTable : Context → Type 0
HasTable c = (t : Table (List Server)) × (c.current_domain_to_servers ≡ some t) × HasServers t

abbrev pub SuccessOrFailure : Event → Type 0
SuccessOrFailure e = (e ≡ success) ⊎ (e ≡ failure)

-- Writing the configuration of Unbound.
pub record Wrote (c : Context) (r : Option (Bool × Context)) : Type 0 where
  pub fine : Bool
  pub after : Context
  pub ran : r ≡ some (fine, after)
  pub frame : Frame c after
  pub authority : fine ≡ true → is_some after.effective_ca ≡ true
  pub backup : after.resolv_conf_backup ≡ c.resolv_conf_backup
  pub serial : after.current_configuration_serial ≡ c.current_configuration_serial
  pub status : after.expected_status ≡ c.expected_status

write_rpz-Wrote :
    (env : Env) (c : Context) (o : Output)
    → is_some c.effective_ca ≡ true
    → Wrote c (some (write_rpz env c o))
unfolding write_rpz
write_rpz-Wrote env c o h = record {
  fine = (write_rpz env c o).0;
  after = (write_rpz env c o).1;
  ran = refl;
  frame = ground arith;
  authority = ground arith;
  backup = ground arith;
  serial = ground arith;
  status = ground arith;
}

-- The same from a context that differs from `c` in the CA and the world only.
Wrote-from :
    {c d : Context} {r : Option (Bool × Context)}
    → Frame c d
    → d.resolv_conf_backup ≡ c.resolv_conf_backup
    → d.current_configuration_serial ≡ c.current_configuration_serial
    → d.expected_status ≡ c.expected_status
    → Wrote d r
    → Wrote c r
Wrote-from f b s x w = record {
  fine = w.fine;
  after = w.after;
  ran = w.ran;
  frame = ground arith;
  authority = w.authority;
  backup = w.backup ∙ b;
  serial = w.serial ∙ s;
  status = w.status ∙ x;
}

write_zones-Wrote :
    (env : Env) (c : Context) (t : Table (List Server)) (text : Text) (w : World)
    → HasServers t
    → is_some c.effective_ca ≡ true
    → Wrote c (write_zones env c (some t) text w)
unfolding write_zones
write_zones-Wrote env c t text w h k =
    let (o, f) = generate_forward_zones_total env t c.resolution_mode text w h in
    rw f (write_rpz-Wrote env c o k)

no_success : {b : Bool} {A : Type 0} → b ≡ false → b ≡ true → A
no_success e f = cc

failed_write :
    (c d : Context)
    → Frame c d
    → d.resolv_conf_backup ≡ c.resolv_conf_backup
    → d.current_configuration_serial ≡ c.current_configuration_serial
    → d.expected_status ≡ c.expected_status
    → Wrote c (some (false, d))
failed_write c d f b s x = record {
  fine = false;
  after = d;
  ran = refl;
  frame = f;
  authority = no_success refl;
  backup = b;
  serial = s;
  status = x;
}

write_authority-Wrote :
    (env : Env) (c : Context) (text : Text) (ca : Option Text) (w : World)
    → HasTable c
    → Wrote c (write_authority env c text (ca, w))
unfolding write_authority
write_authority-Wrote env c text none w h = failed_write c _ (ground arith) refl refl refl
write_authority-Wrote env c text (some ca) w (t, e, h) =
    let d = record c { effective_ca = some ca } in
    let text' = text ++ (codes "\ttls-cert-bundle: " ++ (ca ++ codes "\n")) in
    subst (λ m. Wrote c (write_zones env d m text' w)) (sym e)
      (Wrote-from {c = c} {d = d} (ground arith) refl refl refl
        (write_zones-Wrote env d t text' w h refl))

write_opened-Wrote :
    (env : Env) (c : Context) (o : Output)
    → HasTable c
    → Wrote c (write_opened_configuration env c o)
unfolding write_opened_configuration
write_opened-Wrote env c o h = elim (Bool-cases o.fine) [
  | inl fine ↦ rw fine (write_authority-Wrote env c o.text _ _ h)
  | inr bad ↦ rw bad (failed_write c _ (ground arith) refl refl refl)
]

pub write_configuration-Wrote :
    (env : Env) (c : Context) → HasTable c → Wrote c (write_configuration env c)
unfolding write_configuration
write_configuration-Wrote env c h = elim (Bool-cases (env.succeeds c.world.calls)) [
  | inl opened ↦ rw opened (write_opened-Wrote env c _ h)
  | inr closed ↦ rw closed (failed_write c _ (ground arith) refl refl refl)
]

-- What an action hands back: it ran, and what else its caller may rely on.
pub record Acted (c : Context) (r : Option (Event × Context)) : Type 0 where
  pub event : Event
  pub after : Context
  pub ran : r ≡ some (event, after)
  pub frame : Frame c after
  -- The CA and the backup do not get lost.
  pub authority : is_some c.effective_ca ≡ true → is_some after.effective_ca ≡ true
  pub backup : (b : Text) → c.resolv_conf_backup ≡ some b → after.resolv_conf_backup ≡ some b

pub revert_resolv_conf-Acted :
    (env : Env) (c : Context) (b : Text)
    → c.resolv_conf_backup ≡ some b
    → (a : Acted c (revert_resolv_conf env c)) × SuccessOrFailure a.event
      × (a.after.current_configuration_serial ≡ c.current_configuration_serial)
      × (a.after.expected_status ≡ c.expected_status)
unfolding revert_resolv_conf
revert_resolv_conf-Acted env c b h = (
  record {
    event = (revert_with env c b).0;
    after = (revert_with env c b).1;
    ran = rw (h, ◌>>=◌);
    frame = ground arith;
    authority = ground arith;
    backup = λ b' e. ground arith;
  },
  ground arith,
  ground arith,
  ground arith,
)

pub submit_stop_job-Acted :
    (env : Env) (c : Context)
    → (a : Acted c (some (submit_stop_job env c))) × SuccessOrFailure a.event
      × (a.after.current_configuration_serial ≡ c.current_configuration_serial)
      × (a.after.expected_status ≡ some (codes "stopped"))
unfolding submit_stop_job set_service_status
submit_stop_job-Acted env c = (
  record {
    event = (submit_stop_job env c).0;
    after = (submit_stop_job env c).1;
    ran = refl;
    frame = ground arith;
    authority = ground arith;
    backup = λ b' e. ground arith;
  },
  ground arith,
  ground arith,
  ground arith,
)

pub start_job-Acted :
    (env : Env) (c : Context)
    → (a : Acted c (some (fsm_configuring_dns_manager_event_success env c))) × SuccessOrFailure
        a.event
      × (a.after.current_configuration_serial ≡ c.current_configuration_serial)
      × (a.after.expected_status ≡ some (codes "ready"))
unfolding fsm_configuring_dns_manager_event_success set_service_status
start_job-Acted env c = (
  record {
    event = (fsm_configuring_dns_manager_event_success env c).0;
    after = (fsm_configuring_dns_manager_event_success env c).1;
    ran = refl;
    frame = ground arith;
    authority = ground arith;
    backup = λ b' e. ground arith;
  },
  ground arith,
  ground arith,
  ground arith,
)
