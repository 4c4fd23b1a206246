-- ===== src/Fsm/Running.antt =====
-- The actions of src/fsm/fsm.c that need the table of servers: resolv.conf and the update of Unbound.
use dnsconfd.Ip.{c_string}
use dnsconfd.Prelude.{
  ◌+◌, ◌≡◌, refl, true, ◌⊎◌, inl, inr, not, Option, none, some, List, [], Text, text_eq, arith,
  ◌>>=◌, Bool-cases, is_some,
}
use dnsconfd.HashTable.{Table}
use dnsconfd.Server.{Server}
use dnsconfd.Server.Table.{HasServers}
use dnsconfd.Config.{Config, Mode}
use dnsconfd.Env.{Env, World}
use dnsconfd.Context.{Context, success, failure, reload}
use dnsconfd.Unbound.Authority.{get_effective_ca}
use dnsconfd.Unbound.ResolvConf.{
  write_resolv_conf, with_backup, write_opened, Written, close_resolv_conf, resolv_conf_text,
}
use dnsconfd.Unbound.Update.{Updated, needs_reload, update, with_ca, finish, apply_changes}
use dnsconfd.Unbound.Total.{searches_total, used_table_total}
use dnsconfd.Fsm.Actions.{set_resolv_conf, after_resolv_conf, update_dns_manager, after_update}
use dnsconfd.Fsm.Frames.{HasTable, SuccessOrFailure, Acted}

-- The outcome of writing resolv.conf: a backup that was there is kept, and success leaves one.
record Backed (before : Option Text) (r : Option Written) : Type 0 where
  written : Written
  ran : r ≡ some written
  kept : (b : Text) → before ≡ some b → written.1 ≡ some b
  made : written.0 ≡ true → is_some written.1 ≡ true

write_opened-Backed :
    (env : Env) (config : Config) (t : Table (List Server)) (mode : Mode) (b : Text) (w : World)
    → HasServers t
    → Backed (some b) (write_opened env config t mode (some b) w)
unfolding write_opened
write_opened-Backed env config t mode b w h =
    let (searches, e) = searches_total mode [] t h in
    elim (Bool-cases (env.succeeds w.calls)) [
      | inl opened ↦ rw (opened, e) (closed_lem searches)
      | inr refused ↦
          rw refused (record { written = _; ran = refl; kept = λ b' x. x; made = λ x. refl })
    ]
  where
    closed_lem :
        (searches : List Text)
        → Backed (some b) (
            some (
              close_resolv_conf env
                (c_string config.resolv_conf_path)
                (resolv_conf_text env config searches)
                (some b)
                (record w { calls = w.calls + 1 })))
    closed_lem searches = record {
      written = _;
      ran = refl;
      kept = λ b' x. ground arith;
      made = λ x. ground arith;
    }

-- The outcome where there was no backup before the call.
write_resolv_conf-Backed :
    (env : Env) (config : Config) (t : Table (List Server)) (before : Option Text) (mode : Mode)
    (w : World)
    → HasServers t
    → Backed before (write_resolv_conf env config t before mode w)
unfolding write_resolv_conf
write_resolv_conf-Backed env config t (some b) mode w h =
    write_opened-Backed env config t mode b w h
write_resolv_conf-Backed env config t none mode w h =
    read (env.contents w.calls (c_string config.resolv_conf_path))
  where
    read : (content : Option Text) → Backed none (with_backup env config t mode none content w)
    read none =
        unfold with_backup in record { written = _; ran = refl; kept = λ b x. cc; made = λ x. cc }
    read (some b) =
        unfold with_backup in
        let back = write_opened-Backed env config t mode b (record w { calls = w.calls + 1 }) h in
        record { written = back.written; ran = back.ran; kept = λ b' x. cc; made = back.made }

pub set_resolv_conf-Acted :
    (env : Env) (c : Context)
    → HasTable c
    → (a : Acted c (set_resolv_conf env c)) × SuccessOrFailure a.event
      × (a.event ≡ success → is_some a.after.resolv_conf_backup ≡ true)
      × (a.after.current_configuration_serial ≡ c.current_configuration_serial)
      × (a.after.expected_status ≡ c.expected_status)
unfolding set_resolv_conf
set_resolv_conf-Acted env c (t, e, h) =
    let back =
      write_resolv_conf-Backed env c.config t c.resolv_conf_backup c.resolution_mode c.world h in
    (
      record {
        event = (after_resolv_conf c back.written).0;
        after = (after_resolv_conf c back.written).1;
        ran = rw (e, ◌>>=◌, back.ran);
        frame = ground arith;
        authority = ground arith;
        backup = back.kept;
      },
      ground arith,
      ground (arith, back.made),
      refl,
      refl,
    )

-- An update changes nothing but the world, until its result is stored.
pub update_total :
    (env : Env) (c : Context)
    → HasTable c
    → is_some c.effective_ca ≡ true
    → (r : Updated × World) × (update env c ≡ some r)
unfolding update with_ca
update_total env c (t, e, h) k =
    let (new, f) = used_table_total c.resolution_mode t h in
    let (ca, g) = known c.effective_ca k in
    let (r, i) =
      chosen new ca g (get_effective_ca env (some new) c.resolution_mode c.config c.world) in
    (r, rw (e, ◌>>=◌, f) i)
  where
    known : (o : Option Text) → is_some o ≡ true → (ca : Text) × (o ≡ some ca)
    known none k = cc
    known (some ca) k = (ca, refl)

    chosen :
        (new : Table (List Server)) (ca : Text)
        → c.effective_ca ≡ some ca
        → (p : Option Text × World) → (r : Updated × World) × (with_ca env c new p ≡ some r)
    chosen new ca g (none, w) = (_, refl)
    chosen new ca g (some ca', w) = elim (Bool-cases (not (text_eq ca' ca))) [
      | inl x ↦ ((needs_reload, w), rw (g, ◌>>=◌, x))
      | inr x ↦ (
        finish new (apply_changes env c.current_unbound_domain_to_servers new w),
        rw (g, ◌>>=◌, x),
      )
    ]

pub update_dns_manager-Acted :
    (env : Env) (c : Context)
    → HasTable c
    → is_some c.effective_ca ≡ true
    → (a : Acted c (update_dns_manager env c)) × ((a.event ≡ success)
        ⊎ (a.event ≡ failure)
        ⊎ (a.event ≡ reload))
      × (a.event ≡ success
          → a.after.current_configuration_serial ≡ c.requested_configuration_serial)
      × (a.after.expected_status ≡ c.expected_status)
unfolding update_dns_manager
update_dns_manager-Acted env c h k = let (r, e) = update_total env c h k in done r e
  where
    done :
        (r : Updated × World)
        → update env c ≡ some r
        → (a : Acted c (update env c >>= λ r. some (after_update c r))) × ((a.event ≡ success)
            ⊎ (a.event ≡ failure)
            ⊎ (a.event ≡ reload))
          × (a.event ≡ success
              → a.after.current_configuration_serial ≡ c.requested_configuration_serial)
          × (a.after.expected_status ≡ c.expected_status)
    done r e = (
      record {
        event = (after_update c r).0;
        after = (after_update c r).1;
        ran = rw (e, ◌>>=◌);
        frame = ground arith;
        authority = ground arith;
        backup = λ b x. ground arith;
      },
      ground arith,
      ground arith,
      ground arith,
    )
