-- ===== src/Fsm/Kept.antt =====
-- What the actions of src/fsm/fsm.c never change, in whatever context they run: the configuration, the
-- content of resolv.conf from before, and an exit code that is set.
pub mod Rounds
pub mod Transition
use mathlib.Core.Option.{some-injective}
use dnsconfd.Prelude.{
  ℕ, ◌⊎◌, ◌≡◌, refl, sym, ap, subst, ◌∙◌, Bool, true, false, not, inl, inr, Option, none, some,
  List, [], ◌∷◌, ◌++◌, Text, codes, arith, if◌then◌else◌, ◌>>=◌, Bool-cases, Option-cases,
  >>=-eq-some,
}
use dnsconfd.Ip.{c_string}
use dnsconfd.HashTable.{Table}
use dnsconfd.Server.{Server}
use dnsconfd.Config.{Config, Mode}
use dnsconfd.Env.{Env, World, tick}
use dnsconfd.Context.{
  Context, Event, failure, exit_service_failure, exit_resolv_conf_failure, exit_update_failure,
}
use dnsconfd.Service.{service_management_subscribe_job_removed}
use dnsconfd.Unbound.Zones.{Output, generate_forward_zones, root_fallback}
use dnsconfd.Unbound.Update.{update}
use dnsconfd.Unbound.ResolvConf.{
  Written, close_resolv_conf, write_opened, write_resolv_conf, with_backup, searches_of_table,
  resolv_conf_text,
}
use dnsconfd.Unbound.Write.{
  write_configuration, write_opened_configuration, write_authority, write_zones, write_rpz, give_up,
}
use dnsconfd.Fsm.Actions.{
  update_context, set_dynamic_servers, then_write, fsm_starting_event_kickoff, set_resolv_conf,
  after_resolv_conf, update_dns_manager, after_update, event_of,
}

-- The codes that the machine exits with.
abbrev pub IsFailureCode : ℕ → Type 0
IsFailureCode n =
    (n ≡ exit_service_failure) ⊎ (n ≡ exit_resolv_conf_failure) ⊎ (n ≡ exit_update_failure)

-- The exit code is as before, or was not set and is that of a failure.
abbrev pub Coded : ℕ → ℕ → Type 0
Coded a b = (b ≡ a) ⊎ ((a ≡ 0) × IsFailureCode b)

Coded-trans : (a b c : ℕ) → Coded a b → Coded b c → Coded a c
Coded-trans a b c h k = ground (arith, h, k)

-- The configuration is the same, a backup that is there stays, and so does an exit code that is set.
pub record Keeps (c d : Context) : Type 0 where
  pub config : d.config ≡ c.config
  pub backup : (b : Text) → c.resolv_conf_backup ≡ some b → d.resolv_conf_backup ≡ some b
  pub code : Coded c.exit_code d.exit_code

pub Keeps-trans : {c d e : Context} → Keeps c d → Keeps d e → Keeps c e
Keeps-trans {c} {d} {e} h k = record {
  config = k.config ∙ h.config;
  backup = λ b q. k.backup b (h.backup b q);
  code = Coded-trans c.exit_code d.exit_code e.exit_code h.code k.code;
}

close_lem :
    (env : Env) (path text : Text) (backup : Option Text) (w : World)
    → (close_resolv_conf env path text backup w).1 ≡ backup
close_lem env path text backup w = ground arith

pub write_opened_lem :
    (env : Env) (config : Config) (table : Table (List Server)) (mode : Mode) (backup : Option Text)
    (w : World) (r : Written)
    → write_opened env config table mode backup w ≡ some r
    → r.1 ≡ backup
unfolding write_opened
write_opened_lem env config table mode backup w r h = elim (Bool-cases (env.succeeds w.calls)) [
  | inl e ↦ elim (Option-cases (searches_of_table mode [] table)) [
    | inl f ↦ cc (rw (e, f) at h)
    | inr (s, f) ↦
        let path = c_string config.resolv_conf_path in
        let done = close_resolv_conf env path (resolv_conf_text env config s) backup (tick w) in
        let k : some done ≡ some r = rw (e, f) at h in
        sym (ap (λ x. x.1) (some-injective done r k))
        ∙ close_lem env path (resolv_conf_text env config s) backup (tick w)
  ]
  | inr e ↦ sym (ap (λ x. x.1) (some-injective (false, backup, tick w) r (rw e at h)))
]

write_resolv_conf_lem :
    (env : Env) (config : Config) (table : Table (List Server)) (before : Option Text) (mode : Mode)
    (w : World) (r : Written) (b : Text)
    → write_resolv_conf env config table before mode w ≡ some r
    → before ≡ some b
    → r.1 ≡ some b
unfolding write_resolv_conf with_backup
write_resolv_conf_lem env config table none mode w r b h e = cc
write_resolv_conf_lem env config table (some x) mode w r b h e =
    write_opened_lem env config table mode (some x) w r h ∙ e

pub set_resolv_conf-Keeps :
    (env : Env) (c : Context) (r : Event × Context) → set_resolv_conf env c ≡ some r → Keeps c r.1
unfolding set_resolv_conf
set_resolv_conf-Keeps env c r h =
    let (table, e1, h1) = >>=-eq-some c.current_domain_to_servers _ h in
    let (w, e2, h2) =
      >>=-eq-some
        (write_resolv_conf env c.config table c.resolv_conf_backup c.resolution_mode c.world) _
        h1 in
    subst (λ x. Keeps c x.1) (some-injective (after_resolv_conf c w) r h2)
      (record {
        config = refl;
        backup = λ b e.
            write_resolv_conf_lem env c.config table c.resolv_conf_backup c.resolution_mode c.world
              w b e2 e;
        code = inl refl;
      })

pub update_dns_manager-Keeps :
    (env : Env) (c : Context) (r : Event × Context)
    → update_dns_manager env c ≡ some r
    → Keeps c r.1
unfolding update_dns_manager
update_dns_manager-Keeps env c r h =
    let (u, e1, h1) = >>=-eq-some (update env c) _ h in
    subst (λ x. Keeps c x.1) (some-injective (after_update c u) r h1)
      (record { config = ground arith; backup = λ b e. ground arith; code = inl (ground arith) })

-- What holds of the context of a result holds of that of an equal one.
landed :
    {A : Type 0} {c : Context} (x r : A × Context) → some x ≡ some r → Keeps c x.1 → Keeps c r.1
landed {c = c} x r e k = subst (λ y. Keeps c y.1) (some-injective x r e) k

write_rpz-Keeps : (env : Env) (c : Context) (o : Output) → Keeps c (write_rpz env c o).1
unfolding write_rpz
write_rpz-Keeps env c o = record {
  config = ground arith;
  backup = λ b e. ground arith;
  code = inl (ground arith);
}

write_zones-Keeps :
    (env : Env) (c : Context) (t : Option (Table (List Server))) (text : Text) (w : World)
    (r : Bool × Context)
    → write_zones env c t text w ≡ some r
    → Keeps c r.1
unfolding write_zones
write_zones-Keeps env c none text w r h =
    let o : Output = record { fine = true; text = text ++ root_fallback; world = w } in
    landed (write_rpz env c o) r h (write_rpz-Keeps env c o)
write_zones-Keeps env c (some t) text w r h =
    let (o, e, k) =
      >>=-eq-some (generate_forward_zones env t c.resolution_mode text w)
        (λ o. some (write_rpz env c o)) h in
    landed (write_rpz env c o) r k (write_rpz-Keeps env c o)

write_authority-Keeps :
    (env : Env) (c : Context) (text : Text) (ca : Option Text) (w : World) (r : Bool × Context)
    → write_authority env c text (ca, w) ≡ some r
    → Keeps c r.1
unfolding write_authority
write_authority-Keeps env c text none w r h =
    landed (give_up c w) r h (record { config = refl; backup = λ b e. e; code = inl refl })
write_authority-Keeps env c text (some ca) w r h =
    let d : Context = record c { effective_ca = some ca } in
    let k = write_zones-Keeps env d c.current_domain_to_servers _ w r h in
    record { config = k.config; backup = k.backup; code = k.code }

write_opened_configuration-Keeps :
    (env : Env) (c : Context) (o : Output) (r : Bool × Context)
    → write_opened_configuration env c o ≡ some r
    → Keeps c r.1
unfolding write_opened_configuration
write_opened_configuration-Keeps env c o r h = elim (Bool-cases o.fine) [
  | inl e ↦ write_authority-Keeps env c o.text _ _ r (rw e at h)
  | inr e ↦
      landed (give_up c o.world) r (rw e at h)
        (record { config = refl; backup = λ b e. e; code = inl refl })
]

write_configuration-Keeps :
    (env : Env) (c : Context) (r : Bool × Context)
    → write_configuration env c ≡ some r
    → Keeps c r.1
unfolding write_configuration
write_configuration-Keeps env c r h = elim (Bool-cases (env.succeeds c.world.calls)) [
  | inl e ↦ write_opened_configuration-Keeps env c _ r (rw e at h)
  | inr e ↦
      landed (false, record c { world = tick c.world }) r (rw e at h)
        (record { config = refl; backup = λ b e. e; code = inl refl })
]

then_write-Keeps :
    (env : Env) (s : Bool × Context) (r : Event × Context)
    → then_write env s ≡ some r
    → Keeps s.1 r.1
then_write-Keeps env (false, c) r h =
    landed (failure, c) r h (record { config = refl; backup = λ b e. e; code = inl refl })
then_write-Keeps env (true, c) r h =
    let (w, e, k) = >>=-eq-some (write_configuration env c) _ h in
    landed (event_of w) r k (write_configuration-Keeps env c w e)

subscribe-Keeps :
    (env : Env) (c : Context) → Keeps c (service_management_subscribe_job_removed env c).1
unfolding service_management_subscribe_job_removed
subscribe-Keeps env c = record {
  config = ground arith;
  backup = λ b e. ground arith;
  code = inl (ground arith);
}

pub update_context-Keeps : (env : Env) (c : Context) → Keeps c (update_context env c)
unfolding update_context
update_context-Keeps env c = record { config = refl; backup = λ b e. e; code = inl refl }

pub set_dynamic_servers-Keeps : (c : Context) → Keeps c (set_dynamic_servers c)
unfolding set_dynamic_servers
set_dynamic_servers-Keeps c = record { config = refl; backup = λ b e. e; code = inl refl }

pub kickoff-Keeps :
    (env : Env) (c : Context) (r : Event × Context)
    → fsm_starting_event_kickoff env c ≡ some r
    → Keeps c r.1
unfolding fsm_starting_event_kickoff
kickoff-Keeps env c r h =
    Keeps-trans (update_context-Keeps env c)
      (Keeps-trans (subscribe-Keeps env (update_context env c)) (then_write-Keeps env _ r h))
