-- ===== src/Client/Config/Laws.antt =====
-- What the config command of src/cli_commands/cli_config.c has done where it succeeds.
use dnsconfd.Prelude.{
  ℕ, ◌+◌, ◌≡◌, ◌⊎◌, inl, inr, refl, sym, ◌∙◌, subst, Bool, true, false, ◌==◌, ==_iff, Option, none,
  some, [], Text, arith, if◌then◌else◌, Bool-cases,
}
use dnsconfd.Client.Config.{
  install, uninstall, Node, missing, symlink, file, System, Answers, exit_ok, exit_failure,
  nm_config_content, reload_network_manager, do_nm_enable, closed_config, emptied, do_nm_disable,
  chown, give_to_user, open_and_give, take_node, do_take_resolvconf, do_return_resolvconf, if_ok,
  cli_config_command, if_ok,
}

-- If the exit code is 0, the system has the property.
abbrev pub Achieves : (System → Type 0) → ℕ × System → Type 0
Achieves P (ret, s) = ret ≡ exit_ok → P s

-- Nothing is claimed of a failure.
fails-Achieves : (P : System → Type 0) (s : System) → Achieves P (exit_failure, s)
fails-Achieves P s e = absurd (omega (arith, e))

if-Achieves :
    (P : System → Type 0) (b : Bool) (x y : ℕ × System)
    → (b ≡ true → Achieves P x)
    → (b ≡ false → Achieves P y)
    → Achieves P (if b then x else y)
if-Achieves P true x y f g = f refl
if-Achieves P false x y f g = g refl

-- The group that resolv.conf is to keep.
abbrev pub kept_group : Node → ℕ
kept_group missing = 0
kept_group (symlink target) = 0
kept_group (file owner group) = group

-- What is in the file of NetworkManager, by the number of calls before `fclose`: all of it, unless the flush
-- has failed.
abbrev pub flushed : Answers → ℕ → Text
flushed answers calls = if answers.succeeds calls then nm_config_content else answers.partial

abbrev Enabled : Text → Node → System → Type 0
Enabled content node t = (t.nm_config ≡ some content) × (t.resolv_conf ≡ node)

enable-Achieves :
    (answers : Answers) (s : System)
    → Achieves (Enabled (flushed answers (s.calls + 2)) s.resolv_conf) (do_nm_enable answers s)
unfolding do_nm_enable closed_config reload_network_manager
enable-Achieves answers s = λ e. ground (arith, e)

-- The configuration of NetworkManager is absent or empty.
abbrev pub IsDisabled : Option Text → Type 0
IsDisabled content = (content ≡ none) ⊎ (content ≡ some [])

abbrev Disabled : Node → System → Type 0
Disabled node t = IsDisabled t.nm_config × (t.resolv_conf ≡ node)

disable-Achieves :
    (answers : Answers) (s : System) → Achieves (Disabled s.resolv_conf) (do_nm_disable answers s)
unfolding do_nm_disable emptied reload_network_manager
disable-Achieves answers s = λ e. ground (arith, e)

-- resolv.conf is a file of the user and the group.
abbrev pub Given : Answers → ℕ → Option Text → System → Type 0
Given answers group content t =
    (uid : ℕ) × (answers.user ≡ some uid)
    × (t.resolv_conf ≡ file uid group)
    × (t.nm_config ≡ content)

take-Achieves :
    (answers : Answers) (s : System)
    → Achieves (Given answers (kept_group s.resolv_conf) s.nm_config) (do_take_resolvconf answers s)
unfolding do_take_resolvconf take_node open_and_give give_to_user chown
take-Achieves answers s = λ e. ground (arith, e)

return-Achieves :
    (answers : Answers) (s : System) (uid gid : ℕ)
    → s.resolv_conf ≡ file uid gid
    → IsDisabled s.nm_config
    → Achieves
        (λ t. IsDisabled t.nm_config × (t.resolv_conf ≡ file 0 0))
        (do_return_resolvconf answers s)
unfolding do_return_resolvconf chown
return-Achieves answers s uid gid h d = λ e. ground (arith, e, h, d)

if_ok-Achieves :
    (P Q : System → Type 0) (r : ℕ × System) (f : System → ℕ × System)
    → Achieves P r
    → ((t : System) → P t → Achieves Q (f t))
    → Achieves Q (if_ok r f)
if_ok-Achieves P Q (ret, s) f h g = elim (Bool-cases (ret == exit_ok)) [
  | inl e ↦ rw e (g s (h ((==_iff ret exit_ok).0 e)))
  | inr e ↦ rw e (λ k. absurd (let bad : false ≡ true = sym e ∙ (==_iff ret exit_ok).1 k in cc))
]

-- Where the install command exits with 0, resolv.conf is a file, not a link, that belongs to the user
-- dnsconfd and keeps the group that it had as a file, or else has group 0. NetworkManager has its
-- configuration if `fclose`, the third call, succeeded; if it failed, the command exits with 0 all the
-- same, and the file holds what had reached it.
pub install-Achieves :
    (answers : Answers) (s : System)
    → Achieves
        (Given answers (kept_group s.resolv_conf) (some (flushed answers (s.calls + 2))))
        (cli_config_command answers install s)
unfolding cli_config_command
install-Achieves answers s =
    if_ok-Achieves (Enabled (flushed answers (s.calls + 2)) s.resolv_conf)
      (Given answers (kept_group s.resolv_conf) (some (flushed answers (s.calls + 2))))
      (do_nm_enable answers s) (λ t. do_take_resolvconf answers t) (enable-Achieves answers s)
      (λ t (content, node). taken t content node)
  where
    taken :
        (t : System)
        → t.nm_config ≡ some (flushed answers (s.calls + 2))
        → t.resolv_conf ≡ s.resolv_conf
        → Achieves
            (Given answers (kept_group s.resolv_conf) (some (flushed answers (s.calls + 2))))
            (do_take_resolvconf answers t)
    taken t content node =
        subst
          (λ c.
            Achieves (Given answers (kept_group s.resolv_conf) c) (do_take_resolvconf answers t))
          content
          (subst
            (λ n.
              Achieves (Given answers (kept_group n) t.nm_config) (do_take_resolvconf answers t))
            node (take-Achieves answers t))

-- Where the install command and then the uninstall command exit with 0, whatever each call in between
-- answers, the configuration of NetworkManager is absent or empty, and resolv.conf is a file of root and
-- of the group of root.
pub uninstall-Achieves :
    (before after : Answers) (s t : System)
    → cli_config_command before install s ≡ (exit_ok, t)
    → Achieves
        (λ u. IsDisabled u.nm_config × (u.resolv_conf ≡ file 0 0))
        (cli_config_command after uninstall t)
unfolding cli_config_command
uninstall-Achieves before after s t e =
    let (uid, _, node, _) = installed in
    if_ok-Achieves (Disabled t.resolv_conf)
      (λ u. IsDisabled u.nm_config × (u.resolv_conf ≡ file 0 0)) (do_nm_disable after t)
      (λ u. do_return_resolvconf after u) (disable-Achieves after t)
      (λ u (content, same).
        return-Achieves after u uid (kept_group s.resolv_conf) (same ∙ node) content)
  where
    installed : Given before (kept_group s.resolv_conf) (some (flushed before (s.calls + 2))) t
    installed =
        subst
          (λ r.
            Achieves (Given before (kept_group s.resolv_conf) (some (flushed before (s.calls + 2))))
              r)
          e (install-Achieves before s) refl
