-- ===== src/Log.antt =====
-- src/log_utilities.c: where a message of the daemon goes.
pub mod Laws
use dnsconfd.Prelude.{
  ℕ, Bool, true, false, not, ◌&&◌, Option, none, some, List, [], ◌∷◌, ◌++◌, Text, if◌then◌else◌,
  is_some,
}
use dnsconfd.Prelude.Int.{ℤ, ltb_ℤ}
use dnsconfd.Config.{Config, ConfigBoolean, unset, on, off}

abbrev pub is_on : ConfigBoolean → Bool
is_on unset = false
is_on on = true
is_on off = false

-- `logging_context`: the three bits of `log_switch`, whether `openlog` got LOG_PERROR, and the file.
pub record Logging : Type 0 where
  pub log_level : ℤ
  pub to_stderr : Bool
  pub to_syslog : Bool
  pub to_file : Bool
  pub perror : Bool
  pub opened_log_file : Option Text

opened : (Text → Bool) → Option Text → Logging → Option Logging
opened fopen none logging = some logging
opened fopen (some path) logging =
    if fopen path
    then some (record logging { to_file = true; opened_log_file = some path })
    else none

-- From the context before any call. `fopen` tells whether a file can be opened; `none` is the return of
-- -1.
unfoldable pub initialize_logs : (Text → Bool) → Config → Option Logging
unfolding opened
initialize_logs fopen config =
    let stderr_syslog_handled = is_on config.syslog_log && is_on config.stderr_log in
    opened fopen config.file_log (record {
      log_level = config.log_level;
      to_stderr = not stderr_syslog_handled && is_on config.stderr_log;
      to_syslog = is_on config.syslog_log;
      to_file = false;
      perror = stderr_syslog_handled;
      opened_log_file = none;
    })

-- Where a message arrives.
pub data Sink : Type 0 where
  syslog stderr log_file : Sink

-- `vsyslog` also writes to the standard error if `openlog` got LOG_PERROR.
unfoldable pub vsyslog : Logging → List Sink
vsyslog logging = if logging.perror then syslog ∷ stderr ∷ [] else syslog ∷ []

unfoldable pub dnsconfd_log : Logging → ℤ → List Sink
unfolding vsyslog
dnsconfd_log logging level =
    if ltb_ℤ logging.log_level level
    then []
    else (if logging.to_syslog
        then vsyslog logging
        else if logging.to_stderr
        then stderr ∷ []
        else [])
      ++ (if logging.to_file then log_file ∷ [] else [])
