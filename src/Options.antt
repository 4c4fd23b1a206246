-- ===== src/Options.antt =====
-- The options of the daemon: src/log_utilities.c (the levels), src/configuration_parsing/config_utils.c,
-- and, in the children, the environment, the files and their merge.
pub mod Environment
pub mod File
pub mod Global
use dnsconfd.Prelude.{
  ℕ, ◌+◌, ◌-◌, Bool, true, false, ◌&&◌, ◌||◌, Text, List, [], ◌∷◌, text_eq, codes, if◌then◌else◌,
  leb,
}
use dnsconfd.Prelude.Int.{ℤ, pos, negsuc}
use dnsconfd.Config.{ConfigBoolean, on, off}

abbrev lower : ℕ → ℕ
lower c = if leb b'A' c && leb c b'Z' then c + 32 else c

-- `strcasecmp(a, b) == 0` in the C locale.
unfoldable pub same_word : Text → Text → Bool
unfolding text_eq
same_word [] [] = true
same_word (a ∷ a') (b ∷ b') = text_eq (lower a ∷ []) (lower b ∷ []) && same_word a' b'
same_word _ _ = false

-- The numbers of syslog; -1 is an unknown level.
unfoldable pub parse_log_level : Text → ℤ
unfolding same_word
parse_log_level arg =
    if same_word arg (codes "debug")
    then pos 7
    else if same_word arg (codes "info")
    then pos 6
    else if same_word arg (codes "notice")
    then pos 5
    else if same_word arg (codes "warning")
    then pos 4
    else if same_word arg (codes "err") || same_word arg (codes "error")
    then pos 3
    else if same_word arg (codes "crit")
    then pos 2
    else if same_word arg (codes "alert")
    then pos 1
    else if same_word arg (codes "emerg")
    then pos 0
    else negsuc 0

unfoldable pub parse_boolean : Text → ConfigBoolean
parse_boolean str = if text_eq str (codes "yes") || text_eq str (codes "1") then on else off
