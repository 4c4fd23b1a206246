-- ===== src/Unbound/Update/Plan.antt =====
-- What `update` of src/dns_managers/unbound_manager.c asks of the running Unbound, as one list of
-- commands.
use dnsconfd.Prelude.{
  ◌≡◌, refl, sym, ◌∙◌, Bool, true, false, not, Option, none, some, List, [], ◌∷◌, ◌++◌, Text,
  if◌then◌else◌,
}
use dnsconfd.HashTable.{Table, contains}
use dnsconfd.Server.{Server}
use dnsconfd.Env.{Env, World}
use dnsconfd.Unbound.Commands.{
  execute_unbound_command, flush_command, remove_command, remove_domain, get_forward_add_command,
  add_domain,
}
use dnsconfd.Unbound.Update.{
  is_unchanged, old_servers, add_changed, remove_gone, remove_old, apply_changes,
}

-- The commands are run one after the other, up to the first that fails.
abbrev then_rest : Bool × World → (World → Bool × World) → Bool × World
then_rest (true, w) f = f w
then_rest (false, w) f = (false, w)

pub run_all : Env → List (List Text) → World → Bool × World
run_all env [] w = (true, w)
run_all env (argv ∷ argvs) w = then_rest (execute_unbound_command env argv w) (run_all env argvs)

-- For each domain of the new table whose servers are new or have changed: its servers, then a flush.
abbrev pub additions : Env → Option (Table (List Server)) → Table (List Server) → List (List Text)
additions env old [] = []
additions env old ((key, used) ∷ m) =
    (if is_unchanged used (old_servers old key)
      then []
      else get_forward_add_command env key used ∷ flush_command key ∷ [])
    ++ additions env old m

-- For each domain of the old table that the new one lacks: its removal, then a flush.
abbrev pub removals : Table (List Server) → Table (List Server) → List (List Text)
removals new [] = []
removals new ((key, value) ∷ m) =
    (if contains key new then [] else remove_command key ∷ flush_command key ∷ []) ++ removals new m

abbrev pub old_removals : Table (List Server) → Option (Table (List Server)) → List (List Text)
old_removals new none = []
old_removals new (some old) = removals new old

then_rest_assoc :
    (r : Bool × World) (f g : World → Bool × World)
    → then_rest (then_rest r f) g ≡ then_rest r (λ w. then_rest (f w) g)
then_rest_assoc (true, w) f g = refl
then_rest_assoc (false, w) f g = refl

run_all-append :
    (env : Env) (a b : List (List Text)) (w : World)
    → run_all env (a ++ b) w ≡ then_rest (run_all env a w) (run_all env b)
unfolding run_all
run_all-append env [] b w = refl
run_all-append env (x ∷ a) b w = go (execute_unbound_command env x w) (run_all-append env a b)
  where
    go :
        (r : Bool × World)
        → ((v : World) → run_all env (a ++ b) v ≡ then_rest (run_all env a v) (run_all env b))
        → then_rest r (run_all env (a ++ b))
          ≡ then_rest (then_rest r (run_all env a)) (run_all env b)
    go (true, v) rest = rest v
    go (false, v) rest = refl

run_two :
    (env : Env) (a b : List Text) (w : World)
    → run_all env (a ∷ b ∷ []) w
      ≡ then_rest (execute_unbound_command env a w) (execute_unbound_command env b)
unfolding run_all
run_two env a b w = go (execute_unbound_command env a w)
  where
    last : (r : Bool × World) → then_rest r (λ v. (true, v)) ≡ r
    last (true, v) = refl
    last (false, v) = refl

    go :
        (r : Bool × World)
        → then_rest r (λ v. then_rest (execute_unbound_command env b v) (λ u. (true, u)))
          ≡ then_rest r (execute_unbound_command env b)
    go (true, v) = last (execute_unbound_command env b v)
    go (false, v) = refl

add_domain-run :
    (env : Env) (key : Text) (used : List Server) (w : World)
    → add_domain env key used w
      ≡ run_all env (get_forward_add_command env key used ∷ flush_command key ∷ []) w
unfolding add_domain
add_domain-run env key used w =
    go (execute_unbound_command env (get_forward_add_command env key used) w)
    ∙ sym (run_two env (get_forward_add_command env key used) (flush_command key) w)
  where
    go :
        (r : Bool × World)
        → (if not r.0 then (false, r.1) else execute_unbound_command env (flush_command key) r.1)
          ≡ then_rest r (execute_unbound_command env (flush_command key))
    go (true, v) = refl
    go (false, v) = refl

remove_domain-run :
    (env : Env) (key : Text) (w : World)
    → remove_domain env key w ≡ run_all env (remove_command key ∷ flush_command key ∷ []) w
unfolding remove_domain
remove_domain-run env key w =
    go (execute_unbound_command env (remove_command key) w)
    ∙ sym (run_two env (remove_command key) (flush_command key) w)
  where
    go :
        (r : Bool × World)
        → (if not r.0 then (false, r.1) else execute_unbound_command env (flush_command key) r.1)
          ≡ then_rest r (execute_unbound_command env (flush_command key))
    go (true, v) = refl
    go (false, v) = refl

-- A loop that skips an entry or runs its commands, and goes on unless they fail.
guarded :
    (env : Env) (skip : Bool) (two : List (List Text)) (more : List (List Text)) (w : World)
    (one : Bool × World) (rest : World → Bool × World)
    → one ≡ run_all env two w
    → ((v : World) → rest v ≡ run_all env more v)
    → (let r = (if skip then (true, w) else one) in if r.0 then rest r.1 else (false, r.1))
      ≡ run_all env ((if skip then [] else two) ++ more) w
guarded env true two more w one rest e h = h w
guarded env false two more w one rest e h =
    rw e (go (run_all env two w)) ∙ sym (run_all-append env two more w)
  where
    go :
        (r : Bool × World)
        → (if r.0 then rest r.1 else (false, r.1)) ≡ then_rest r (run_all env more)
    go (true, v) = h v
    go (false, v) = refl

add_changed-run :
    (env : Env) (old : Option (Table (List Server))) (new : Table (List Server)) (w : World)
    → add_changed env old new w ≡ run_all env (additions env old new) w
unfolding add_changed
add_changed-run env old [] w = unfold run_all in refl
add_changed-run env old ((key, used) ∷ m) w =
    guarded env (is_unchanged used (old_servers old key))
      (get_forward_add_command env key used ∷ flush_command key ∷ []) (additions env old m) w
      (add_domain env key used w) (add_changed env old m) (add_domain-run env key used w)
      (add_changed-run env old m)

remove_gone-run :
    (env : Env) (new old : Table (List Server)) (w : World)
    → remove_gone env new old w ≡ run_all env (removals new old) w
unfolding remove_gone
remove_gone-run env new [] w = unfold run_all in refl
remove_gone-run env new ((key, value) ∷ m) w =
    guarded env (contains key new) (remove_command key ∷ flush_command key ∷ []) (removals new m) w
      (remove_domain env key w) (remove_gone env new m) (remove_domain-run env key w)
      (remove_gone-run env new m)

remove_old-run :
    (env : Env) (new : Table (List Server)) (old : Option (Table (List Server))) (w : World)
    → remove_old env new old w ≡ run_all env (old_removals new old) w
remove_old-run env new none w = unfold run_all in refl
remove_old-run env new (some old) w = remove_gone-run env new old w

-- The update of Unbound is one list of commands, run up to the first that fails: for each domain of
-- the new table that is new or whose servers differ, the command with its servers and a flush; then,
-- for each domain of the old table that the new one lacks, the removal and a flush. It succeeds
-- exactly when they all do, and it issues no other command.
pub apply_changes-run :
    (env : Env) (old : Option (Table (List Server))) (new : Table (List Server)) (w : World)
    → apply_changes env old new w ≡ run_all env (additions env old new ++ old_removals new old) w
unfolding apply_changes
apply_changes-run env old new w =
    rw (add_changed-run env old new w) (go (run_all env (additions env old new) w))
    ∙ sym (run_all-append env (additions env old new) (old_removals new old) w)
  where
    go :
        (r : Bool × World)
        → (if r.0 then remove_old env new old r.1 else (false, r.1))
          ≡ then_rest r (run_all env (old_removals new old))
    go (true, v) = remove_old-run env new old v
    go (false, v) = refl
