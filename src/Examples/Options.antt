-- ===== src/Examples/Options.antt =====
-- The options of the daemon on a command line, an environment and two files.
use dnsconfd.Prelude.{
  ℕ, ◌≡◌, refl, true, false, Option, none, some, List, [], ◌∷◌, ◌++◌, Text, text_eq, codes,
  if◌then◌else◌,
}
use dnsconfd.Prelude.Int.{pos}
use dnsconfd.Ip.{SockAddr, cleared, parse_ip_str}
use dnsconfd.Ip.Laws.{cleared-IsStorage}
use dnsconfd.Config.{Config}
use dnsconfd.Config.Sound.{IsSound}
use dnsconfd.Server.Sorting.{insertion_sort-SortLaws}
use dnsconfd.Fsm.Total.{IsResting}
use dnsconfd.Log.{Logging, initialize_logs, dnsconfd_log}
use dnsconfd.Log.Laws.{wanted_sinks, dnsconfd_log-wanted_sinks}
use dnsconfd.Yaml.{
  on_done, Event, scalar, sequence_start, sequence_end, mapping_start, mapping_end, stream_end,
  other_event, done,
}
use dnsconfd.Yaml.Laws.{Holds}
use dnsconfd.Options.{parse_log_level}
use dnsconfd.Options.Environment.{parse_environment_variables}
use dnsconfd.Options.File.{Files, parse_config_file}
use dnsconfd.Options.File.Servers.{parse_static_servers}
use dnsconfd.Options.File.Servers.Pending.{Reached}
use dnsconfd.Options.File.Servers.Laws.{parse_static_servers-Reached}
use dnsconfd.Options.File.Servers.Entries.{Entry, value, sequence, static_events, servers_meaning}
use dnsconfd.Options.File.Servers.Meaning.{parse_static_servers-meaning}
use dnsconfd.Options.File.Zones.{parse_rpz_zones}
use dnsconfd.Options.File.Zones.Laws.{parse_rpz_zones-Reached}
use dnsconfd.Options.File.Laws.{parse_config_file-IsSound}
use dnsconfd.Options.Global.{
  GlobalOption, syslog_log, empty_config, parse_configuration, argp_parse, default_config_file,
}
use dnsconfd.Options.Global.Merging.{IsConfigured, empty-IsSound}
use dnsconfd.Options.Global.Laws.{parse_configuration-IsConfigured}
use dnsconfd.Options.Global.Follows.{Follows, first_set}
use dnsconfd.Options.Global.Precedence.{parse_configuration-Follows}
use dnsconfd.Daemon.{dbus_server_run}
use dnsconfd.Daemon.Reachable.{start}
use dnsconfd.Daemon.Started.{main, runs, main-IsResting}
use dnsconfd.Examples.Data.{host, env}
use dnsconfd.Examples.Addresses.{inet_toy, inet_toy-InetLaws, decode}

abbrev memory : ℕ → SockAddr
memory n = cleared

abbrev server_events : List Event
server_events =
    mapping_start
    ∷ scalar (codes "address")
    ∷ scalar (4 ∷ codes "1234")
    ∷ scalar (codes "search_domains")
    ∷ sequence_start
    ∷ scalar (codes "lan")
    ∷ sequence_end
    ∷ mapping_end
    ∷ sequence_end
    ∷ []

abbrev first_file : List Event
first_file =
    other_event
    ∷ mapping_start
    ∷ scalar (codes "static_servers")
    ∷ sequence_start
    ∷ (server_events
        ++ (scalar (codes "log_level")
            ∷ scalar (codes "debug")
            ∷ scalar (codes "include")
            ∷ scalar (codes "more")
            ∷ mapping_end
            ∷ stream_end
            ∷ []))

abbrev zone_events : List Event
zone_events =
    mapping_start
    ∷ scalar (codes "name")
    ∷ scalar (codes "block")
    ∷ scalar (codes "zonefile")
    ∷ scalar (codes "/block")
    ∷ mapping_end
    ∷ sequence_end
    ∷ []

abbrev second_file : List Event
second_file =
    mapping_start
    ∷ scalar (codes "rpz")
    ∷ sequence_start
    ∷ (zone_events ++ (mapping_end ∷ stream_end ∷ []))

abbrev files : Files
files = record {
  read = λ path. if text_eq path (codes "more") then some second_file else some first_file;
  is_directory = λ _. some false;
  glob = λ _. none;
}

abbrev variables : Text → Option Text
variables name = if text_eq name (codes "LOG_LEVEL") then some (codes "info") else none

abbrev options : List GlobalOption
options = syslog_log ∷ []

accepted : (c : Config) × (parse_configuration inet_toy memory files variables options ≡ done c)
unfolding parse_configuration text_eq decode parse_log_level parse_ip_str
accepted = (_, refl)

parse_configuration-Follows_example :
    (cli given file : Config) × (path : Text) × (argp_parse inet_toy options empty_config
      ≡ done cli)
    × (parse_environment_variables inet_toy variables empty_config ≡ done given)
    × (first_set (cli.config_file ∷ given.config_file ∷ some default_config_file ∷ []) ≡ some path)
    × (parse_config_file inet_toy memory files path empty_config ≡ done file)
    × Follows inet_toy cli given file accepted.0
parse_configuration-Follows_example =
    parse_configuration-Follows inet_toy memory files variables options accepted.0 accepted.1

parse_configuration-IsConfigured_example :
    Holds IsConfigured (parse_configuration inet_toy memory files variables options)
parse_configuration-IsConfigured_example =
    parse_configuration-IsConfigured inet_toy-InetLaws memory (λ n. cleared-IsStorage) files
      variables options

parse_config_file-IsSound_example :
    Holds IsSound (parse_config_file inet_toy memory files (codes "first") empty_config)
parse_config_file-IsSound_example =
    parse_config_file-IsSound inet_toy-InetLaws memory (λ n. cleared-IsStorage) files
      (codes "first") empty_config empty-IsSound

parse_static_servers-Reached_example :
    Holds (Reached server_events) (parse_static_servers inet_toy memory server_events empty_config)
parse_static_servers-Reached_example =
    parse_static_servers-Reached inet_toy-InetLaws memory (λ n. cleared-IsStorage) server_events
      empty_config empty-IsSound

parse_rpz_zones-Reached_example :
    Holds (Reached zone_events) (parse_rpz_zones zone_events empty_config)
parse_rpz_zones-Reached_example = parse_rpz_zones-Reached zone_events empty_config empty-IsSound

logged : (l : Logging) × (initialize_logs (λ path. true) accepted.0 ≡ some l)
unfolding accepted initialize_logs parse_configuration text_eq decode parse_log_level parse_ip_str
logged = (_, refl)

dnsconfd_log-wanted_sinks_example : dnsconfd_log logged.0 (pos 3) ≡ wanted_sinks accepted.0 (pos 3)
dnsconfd_log-wanted_sinks_example =
    dnsconfd_log-wanted_sinks (λ path. true) accepted.0 logged.0 (pos 3) logged.1

running :
    (c : Config) × (l : Logging) × (main host files (λ path. true) variables options ≡ runs c l)
unfolding main parse_configuration initialize_logs text_eq decode parse_log_level parse_ip_str
running = (_, _, refl)

main-IsResting_example : IsResting (dbus_server_run running.0)
main-IsResting_example =
    main-IsResting env insertion_sort-SortLaws host inet_toy-InetLaws (λ n. cleared-IsStorage) files
      (λ path. true) variables options running.0 running.1 running.2 start

abbrev two_servers : List (List Entry)
two_servers =
    (value (codes "address") (4 ∷ codes "1234")
      ∷ sequence (codes "search_domains") (codes "lan" ∷ [])
      ∷ [])
    ∷ (value (codes "port") (codes "853") ∷ value (codes "address") (4 ∷ codes "5678") ∷ [])
    ∷ []

parse_static_servers-meaning_example :
    parse_static_servers inet_toy memory (static_events two_servers (mapping_end ∷ [])) empty_config
    ≡ on_done
        (servers_meaning inet_toy memory two_servers empty_config)
        (λ c. done (c, mapping_end ∷ []))
parse_static_servers-meaning_example =
    parse_static_servers-meaning inet_toy memory two_servers (mapping_end ∷ []) empty_config
