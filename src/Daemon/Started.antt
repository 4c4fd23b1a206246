-- ===== src/Daemon/Started.antt =====
-- `main` of src/main.c for the command that starts the daemon, and all that follows.
use dnsconfd.Prelude.{ℕ, ◌≡◌, subst, Bool, Option, none, some, List, Text}
use dnsconfd.Ip.{InetLaws}
use dnsconfd.Ip.Laws.{IsStorage}
use dnsconfd.Server.Sorting.{SortLaws}
use dnsconfd.Config.{Config}
use dnsconfd.Env.{Env}
use dnsconfd.Context.{Context}
use dnsconfd.Log.{Logging, initialize_logs}
use dnsconfd.Yaml.{Outcome, done, failed, exhausted}
use dnsconfd.Yaml.Laws.{Holds}
use dnsconfd.Options.File.{Files}
use dnsconfd.Options.Global.{GlobalOption, parse_configuration}
use dnsconfd.Options.Global.Merging.{IsConfigured}
use dnsconfd.Options.Global.Laws.{parse_configuration-IsConfigured}
use dnsconfd.Fsm.Total.{IsResting}
use dnsconfd.Daemon.Update.{Host}
use dnsconfd.Daemon.Reachable.{Reachable, Reachable-IsResting}
use dnsconfd.Server.Zones.{All-HasZones}

-- How `main` goes on: it exits with a code, or runs the daemon from a context, with its logs open.
pub data Start : Type 0 where
  exits : ℕ → Start
  runs : Config → Logging → Start
  hangs : Start

abbrev pub exit_bad_arguments : ℕ
exit_bad_arguments = 13

abbrev pub exit_logs : ℕ
exit_logs = 14

start_logs : (Text → Bool) → Config → Start
unfolding initialize_logs
start_logs fopen config = elim (initialize_logs fopen config) [
  | none ↦ exits exit_logs
  | some logging ↦ runs config logging
]

unfoldable pub main :
    Host → Files → (Text → Bool) → (Text → Option Text) → List GlobalOption → Start
unfolding parse_configuration start_logs
main host files fopen env options =
    elim (parse_configuration host.net host.memory files env options) [
      | failed e ↦ exits exit_bad_arguments
      | exhausted ↦ hangs
      | done config ↦ start_logs fopen config
    ]

logs_lem :
    (fopen : Text → Bool) (config c : Config) (logging : Logging)
    → start_logs fopen config ≡ runs c logging
    → config ≡ c
unfolding start_logs
logs_lem fopen config c logging h = go (initialize_logs fopen config) h
  where
    go :
        (o : Option Logging)
        → elim o [ none ↦ exits exit_logs | some l ↦ runs config l ] ≡ runs c logging
        → config ≡ c
    go none e = cc
    go (some l) e = cc

module _ (env : Env) (laws : SortLaws env.sort) (host : Host) (inet_laws : InetLaws host.net)
    (storage : (n : ℕ) → IsStorage (host.memory n)) (files : Files) (fopen : Text → Bool)
    (variables : Text → Option Text) (options : List GlobalOption) where
  main-IsConfigured :
      (config : Config) (logging : Logging)
      → main host files fopen variables options ≡ runs config logging
      → IsConfigured config
  unfolding main
  main-IsConfigured config logging h =
      go (parse_configuration host.net host.memory files variables options)
        (parse_configuration-IsConfigured inet_laws host.memory storage files variables options) h
    where
      go :
          (o : Outcome Config)
          → Holds IsConfigured o
          → elim o [
            | failed e ↦ exits exit_bad_arguments
            | exhausted ↦ hangs
            | done c ↦ start_logs fopen c
          ]
            ≡ runs config logging
          → IsConfigured config
      go (failed e) k q = cc
      go exhausted k q = absurd k
      go (done c) k q = subst IsConfigured (logs_lem fopen c config logging q) k

  -- Whatever the command line, the environment, the files and, later, the calls and signals
  -- are: a daemon that `main` starts waits between its calls in one of its waiting states, with all
  -- that its state asks for. The documentation of `g_list_sort`, `inet_pton` and `inet_ntop` holds of the
  -- sort and the conversions, and the memory for a network is of the right size.
  pub main-IsResting :
      (config : Config) (logging : Logging)
      → main host files fopen variables options ≡ runs config logging
      → {c : Context} → Reachable host env config c
      → IsResting c
  main-IsResting config logging h reached =
      Reachable-IsResting env laws host inet_laws storage config
        (All-HasZones config.static_servers (main-IsConfigured config logging h).static) reached
