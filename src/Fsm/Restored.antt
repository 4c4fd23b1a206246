-- ===== src/Fsm/Restored.antt =====
-- `set_resolv_conf` and `revert_resolv_conf` of src/fsm/fsm.c together, with the machine in between.
use mathlib.Core.Option.{some-injective}
use dnsconfd.Ip.{c_string}
use dnsconfd.Prelude.{
  ◌≡◌, refl, sym, ap, subst, ◌∙◌, Bool, true, false, not, inl, inr, Option, none, some, List, ◌∷◌,
  Text, arith, if◌then◌else◌, Option-cases, >>=-eq-some,
}
use dnsconfd.HashTable.{Table}
use dnsconfd.Server.{Server}
use dnsconfd.Config.{Config, Mode}
use dnsconfd.Env.{Env, World, tick, wrote}
use dnsconfd.Context.{Context, Event, success, failure}
use dnsconfd.Unbound.ResolvConf.{Written, write_resolv_conf}
use dnsconfd.Fsm.Kept.{write_opened_lem}
use dnsconfd.Fsm.Kept.Rounds.{Rounds, Rounds-kept}
use dnsconfd.Fsm.Actions.{set_resolv_conf, after_resolv_conf, revert_resolv_conf, revert_with}

write_resolv_conf_lem :
    (env : Env) (config : Config) (table : Table (List Server)) (mode : Mode) (w : World)
    (r : Written)
    → write_resolv_conf env config table none mode w ≡ some r
    → r.0 ≡ true
    → (b : Text) × (env.contents w.calls (c_string config.resolv_conf_path) ≡ some b)
      × (r.1 ≡ some b)
unfolding write_resolv_conf
write_resolv_conf_lem env config table mode w r h t =
    elim (Option-cases (env.contents w.calls (c_string config.resolv_conf_path))) [
      | inl e ↦
          let k : some (false, none, tick w) ≡ some r = rw e at h in
          cc (ap (λ x. x.0) (some-injective (false, none, tick w) r k), t)
      | inr (b, e) ↦ (b, e, write_opened_lem env config table mode (some b) (tick w) r (rw e at h))
    ]

revert_lem :
    (env : Env) (c d : Context) (b : Text)
    → revert_with env c b ≡ (success, d)
    → d.world.log ≡ wrote (c_string c.config.resolv_conf_path) b ∷ c.world.log
revert_lem env c d b h = ground (arith, h)

write_first :
    (env : Env) (config : Config) (table : Table (List Server)) (mode : Mode) (w : World)
    (r : Written) (backup : Option Text)
    → backup ≡ none
    → write_resolv_conf env config table backup mode w ≡ some r
    → r.0 ≡ true
    → (b : Text) × (env.contents w.calls (c_string config.resolv_conf_path) ≡ some b)
      × (r.1 ≡ some b)
write_first env config table mode w r none n h t =
    write_resolv_conf_lem env config table mode w r h t
write_first env config table mode w r (some x) n h t = cc

revert_some :
    (env : Env) (d f : Context) (b : Text)
    → d.resolv_conf_backup ≡ some b
    → revert_resolv_conf env d ≡ some (success, f)
    → revert_with env d b ≡ (success, f)
unfolding revert_resolv_conf
revert_some env d f b q g = go d.resolv_conf_backup q g
  where
    go :
        (o : Option Text)
        → o ≡ some b
        → elim o as (λ k. Option (Event × Context)) [
          | some content ↦ some (revert_with env d content)
          | none ↦
              if not (env.succeeds d.world.calls)
              then some (failure, record d { world = tick d.world })
              else none
        ]
          ≡ some (success, f)
        → revert_with env d b ≡ (success, f)
    go (some x) q h =
        subst (λ z. revert_with env d z ≡ (success, f)) (some-injective x b q)
          (some-injective (revert_with env d x) (success, f) h)
    go none q h = cc

-- If the daemon writes resolv.conf while it has no backup of it, and after any number of rounds of the
-- machine and of changes by the handlers in between reverts it, both with success, then what it writes
-- back is what it had read before the first time, to the same path.
pub set_resolv_conf-revert_resolv_conf :
    (env : Env) (c d e f : Context)
    → c.resolv_conf_backup ≡ none
    → set_resolv_conf env c ≡ some (success, d)
    → Rounds env d e
    → revert_resolv_conf env e ≡ some (success, f)
    → (b : Text) × (env.contents c.world.calls (c_string c.config.resolv_conf_path) ≡ some b)
      × (f.world.log ≡ wrote (c_string c.config.resolv_conf_path) b ∷ e.world.log)
unfolding set_resolv_conf
set_resolv_conf-revert_resolv_conf env c d e f n h rounds g =
    let (same, stays) = Rounds-kept rounds in
    let (table, e1, h1) = >>=-eq-some c.current_domain_to_servers _ h in
    let (r, e2, h2) =
      >>=-eq-some
        (write_resolv_conf env c.config table c.resolv_conf_backup c.resolution_mode c.world) _
        h1 in
    let done : after_resolv_conf c r ≡ (success, d) =
      some-injective (after_resolv_conf c r) (success, d) h2 in
    let fine : r.0 ≡ true = succeeded r.0 (ap (λ x. x.0) done) in
    let (b, read, kept) =
      write_first env c.config table c.resolution_mode c.world r c.resolv_conf_backup n e2 fine in
    let backup : d.resolv_conf_backup ≡ some b =
      sym (ap (λ x. x.1.resolv_conf_backup) done) ∙ kept in
    let path : e.config ≡ c.config = same ∙ sym (ap (λ x. x.1.config) done) in
    let last = revert_lem env e f b (revert_some env e f b (stays b backup) g) in
    (
      b,
      read,
      subst (λ k. f.world.log ≡ wrote (c_string k.resolv_conf_path) b ∷ e.world.log) path last,
    )
  where
    succeeded : (x : Bool) → (if x then success else failure) ≡ success → x ≡ true
    succeeded true h = refl
    succeeded false h = cc
