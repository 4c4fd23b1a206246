-- ===== src/Client/Config.antt =====
-- The config command: src/cli_commands/cli_config.c, and its argument in
-- src/configuration_parsing/config_command.c.
pub mod Laws
use dnsconfd.Prelude.{
  ℕ, ◌+◌, ◌≡◌, Bool, true, false, not, ◌==◌, Option, none, some, List, [], ◌∷◌, Text, codes,
  if◌then◌else◌,
}
use dnsconfd.Options.{same_word}

-- `config_action_t`.
pub data ConfigAction : Type 0 where
  no_action nm_enable nm_disable take_resolvconf return_resolvconf install uninstall : ConfigAction

action_of : Text → Option ConfigAction
action_of arg =
    if same_word arg (codes "nm_enable")
    then some nm_enable
    else if same_word arg (codes "nm_disable")
    then some nm_disable
    else if same_word arg (codes "take_resolvconf")
    then some take_resolvconf
    else if same_word arg (codes "return_resolvconf")
    then some return_resolvconf
    else if same_word arg (codes "install")
    then some install
    else if same_word arg (codes "uninstall")
    then some uninstall
    else none

-- The one argument of the command; `none`: `argp_error` ends the process.
unfoldable pub parse_config_command : List Text → Option ConfigAction
unfolding action_of
parse_config_command [] = none
parse_config_command (arg ∷ []) = action_of arg
parse_config_command (arg ∷ second ∷ args) = none

-- What stands at the path of resolv.conf: a file with its owner and group, or a symbolic link to one,
-- if it leads to one.
pub data Node : Type 0 where
  missing : Node
  symlink : Option (ℕ × ℕ) → Node
  file : ℕ → ℕ → Node

-- The files that the command changes, the number of calls made, and how often NetworkManager was
-- reloaded.
pub record System : Type 0 where
  pub nm_config : Option Text
  pub resolv_conf : Node
  pub calls : ℕ
  pub reloads : ℕ

-- The outcome of each call, by the number of calls before it: for `stat` and `lstat`, whether it fails
-- with an error other than ENOENT; for the rest, whether it succeeds. The user dnsconfd, if there is
-- one; the owner and group of a file that the client creates; and what has reached a file of which a write
-- or the flush at its close has failed.
pub record Answers : Type 0 where
  pub succeeds : ℕ → Bool
  pub user : Option ℕ
  pub owner : ℕ
  pub group : ℕ
  pub partial : Text

abbrev asked : Answers → System → Bool
asked answers s = answers.succeeds s.calls

abbrev next : System → System
next s = record s { calls = s.calls + 1 }

abbrev pub exit_ok : ℕ
exit_ok = 0

abbrev pub exit_failure : ℕ
exit_failure = 15

abbrev pub nm_config_content : Text
nm_config_content = codes "[main]\ndns=dnsconfd\n"

unfoldable pub reload_network_manager : Answers → System → ℕ × System
reload_network_manager answers s =
    if asked answers s
    then (exit_ok, record (next s) { reloads = s.reloads + 1 })
    else (exit_failure, next s)

-- Opening for writing empties the file. `fprintf` fills a buffer, which `fclose` flushes; the result of
-- `fclose` is ignored, here and in `do_nm_enable`.
unfoldable pub closed_config : Answers → System → System
closed_config answers s = record (next s) {
  nm_config = some (if asked answers s then nm_config_content else answers.partial);
}

unfoldable pub do_nm_enable : Answers → System → ℕ × System
unfolding reload_network_manager closed_config
do_nm_enable answers s =
    let s1 = next s in
    let opened = record s1 { nm_config = some [] } in
    let s2 = next opened in
    if not (asked answers s)
    then (exit_failure, s1)
    else if not (asked answers opened)
    then (exit_failure, record (next s2) { nm_config = some answers.partial })
    else reload_network_manager answers (closed_config answers s2)

-- The file is closed with nothing to flush.
emptied : Answers → Option Text → System → ℕ × System
unfolding reload_network_manager
emptied answers none s = reload_network_manager answers s
emptied answers (some content) s =
    if asked answers s
    then reload_network_manager answers (record (next s) { nm_config = some [] })
    else (exit_failure, next s)

unfoldable pub do_nm_disable : Answers → System → ℕ × System
unfolding emptied
do_nm_disable answers s =
    if asked answers s then emptied answers s.nm_config (next s) else (exit_failure, next s)

-- `fopen(path, "a")` creates the file where there is none, and follows a link.
abbrev opened_node : Answers → Node → Node
opened_node answers missing = file answers.owner answers.group
opened_node answers (symlink (some target)) = symlink (some target)
opened_node answers (symlink none) = symlink (some (answers.owner, answers.group))
opened_node answers (file owner group) = file owner group

-- `chown`, where there is a file; it follows a link.
abbrev owned_node : ℕ → ℕ → Node → Option Node
owned_node owner group missing = none
owned_node owner group (symlink none) = none
owned_node owner group (symlink (some target)) = some (symlink (some (owner, group)))
owned_node owner group (file o g) = some (file owner group)

abbrev owned : System → Option Node → ℕ × System
owned s none = (exit_failure, next s)
owned s (some node) = (exit_ok, record (next s) { resolv_conf = node })

unfoldable pub chown : Answers → ℕ → ℕ → System → ℕ × System
chown answers owner group s =
    if asked answers s
    then owned s (owned_node owner group s.resolv_conf)
    else (exit_failure, next s)

-- From `getpwnam` on.
give_to_user : Answers → Option ℕ → ℕ → System → ℕ × System
unfolding chown
give_to_user answers none target_gid s = (exit_failure, s)
give_to_user answers (some uid) target_gid s = chown answers uid target_gid s

-- From `fopen` on.
unfoldable pub open_and_give : Answers → ℕ → System → ℕ × System
unfolding give_to_user
open_and_give answers target_gid s =
    if asked answers s
    then give_to_user answers answers.user target_gid
        (record (next s) { resolv_conf = opened_node answers s.resolv_conf })
    else (exit_failure, next s)

-- By what `lstat` has found.
take_node : Answers → Node → System → ℕ × System
unfolding open_and_give
take_node answers missing s = open_and_give answers 0 s
take_node answers (file owner group) s = open_and_give answers group s
take_node answers (symlink target) s =
    if asked answers s
    then open_and_give answers 0 (record (next s) { resolv_conf = missing })
    else (exit_failure, next s)

unfoldable pub do_take_resolvconf : Answers → System → ℕ × System
unfolding take_node
do_take_resolvconf answers s =
    if asked answers s then take_node answers s.resolv_conf (next s) else (exit_failure, next s)

unfoldable pub do_return_resolvconf : Answers → System → ℕ × System
unfolding chown
do_return_resolvconf answers s = chown answers 0 0 s

-- The second step of two, if the first went well.
abbrev pub if_ok : ℕ × System → (System → ℕ × System) → ℕ × System
if_ok (ret, s) f = if ret == exit_ok then f s else (ret, s)

unfoldable pub cli_config_command : Answers → ConfigAction → System → ℕ × System
unfolding do_nm_enable do_nm_disable do_take_resolvconf do_return_resolvconf
cli_config_command answers nm_enable s = do_nm_enable answers s
cli_config_command answers nm_disable s = do_nm_disable answers s
cli_config_command answers take_resolvconf s = do_take_resolvconf answers s
cli_config_command answers return_resolvconf s = do_return_resolvconf answers s
cli_config_command answers install s =
    if_ok (do_nm_enable answers s) (λ t. do_take_resolvconf answers t)
cli_config_command answers uninstall s =
    if_ok (do_nm_disable answers s) (λ t. do_return_resolvconf answers t)
cli_config_command answers no_action s = (13, s)
