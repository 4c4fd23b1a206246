-- ===== src/Log/Laws.antt =====
-- The sinks of src/log_utilities.c that the configuration asks for.
use mathlib.Core.Option.{some-injective}
use dnsconfd.Prelude.{
  ◌≡◌, refl, subst, Bool, true, false, not, ◌&&◌, Option, none, some, List, [], ◌∷◌, ◌++◌, Text,
  if◌then◌else◌, is_some,
}
use dnsconfd.Prelude.Int.{ℤ, ltb_ℤ}
use dnsconfd.Config.{Config}
use dnsconfd.Log.{
  is_on, Logging, opened, initialize_logs, Sink, syslog, stderr, log_file, dnsconfd_log,
}

-- The sinks that are switched on, each once.
abbrev pub wanted_sinks : Config → ℤ → List Sink
wanted_sinks config level =
    if ltb_ℤ config.log_level level
    then []
    else (if is_on config.syslog_log then syslog ∷ [] else [])
      ++ ((if is_on config.stderr_log then stderr ∷ [] else [])
          ++ (if is_some config.file_log then log_file ∷ [] else []))

-- What opening the file leaves, and whether a file is then written.
abbrev Opened : Option Text → Logging → Logging → Type 0
Opened file before logging =
    (logging.log_level ≡ before.log_level)
    × (logging.to_stderr ≡ before.to_stderr)
    × (logging.to_syslog ≡ before.to_syslog)
    × (logging.perror ≡ before.perror)
    × ((before.to_file ≡ false) → (logging.to_file ≡ is_some file))

opened_lem :
    (fopen : Text → Bool) (file : Option Text) (before logging : Logging)
    → opened fopen file before ≡ some logging
    → Opened file before logging
unfolding opened
opened_lem fopen none before logging h =
    subst (Opened none before) (some-injective before logging h) (refl, refl, refl, refl, λ f. f)
opened_lem fopen (some path) before logging h = go (fopen path) h
  where
    go :
        (b : Bool)
        → (if b then some (record before { to_file = true; opened_log_file = some path }) else none)
          ≡ some logging
        → Opened (some path) before logging
    go true e =
        subst (Opened (some path) before) (some-injective _ logging e)
          (refl, refl, refl, refl, λ f. refl)
    go false e = cc

sinks_lem :
    (above on_syslog on_stderr to_file : Bool)
    → (if above
        then []
        else (if on_syslog
            then (if on_syslog && on_stderr then syslog ∷ stderr ∷ [] else syslog ∷ [])
            else if not (on_syslog && on_stderr) && on_stderr
            then stderr ∷ []
            else [])
          ++ (if to_file then log_file ∷ [] else []))
      ≡ (if above
          then []
          else (if on_syslog then syslog ∷ [] else [])
            ++ ((if on_stderr then stderr ∷ [] else []) ++ (if to_file then log_file ∷ [] else [])))
sinks_lem true s e f = refl
sinks_lem false true true f = refl
sinks_lem false true false f = refl
sinks_lem false false true f = refl
sinks_lem false false false f = refl

-- Once the logs are initialised, a message arrives at each sink that the configuration switches on,
-- once, and at no other, and only if its level is not above the level of the configuration.
pub dnsconfd_log-wanted_sinks :
    (fopen : Text → Bool) (config : Config) (logging : Logging) (level : ℤ)
    → initialize_logs fopen config ≡ some logging
    → dnsconfd_log logging level ≡ wanted_sinks config level
unfolding initialize_logs dnsconfd_log
dnsconfd_log-wanted_sinks fopen config logging level h =
    let (l, e, s, p, f) = opened_lem fopen config.file_log _ logging h in
    rw (l, e, s, p, f refl)
      (sinks_lem (ltb_ℤ config.log_level level) (is_on config.syslog_log) (is_on config.stderr_log)
        (is_some config.file_log))
