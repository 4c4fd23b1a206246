-- ===== src/Lib.antt =====
-- dnsconfd, the daemon that configures a local DNS cache (Unbound) with the servers it is told of.
--
-- `main` (src/main.c) reads the options from the command line, the environment and YAML files
-- (src/configuration_parsing), opens the logs (src/log_utilities.c) and runs the daemon. Its state machine
-- (src/fsm/fsm.c) is driven by calls over D-Bus, by signals and by the results of service jobs
-- (src/dbus_server.c, src/service_management.c). Its actions turn the static and the dynamic servers into a
-- table from domains to servers (src/types/server_uri.c), choose for each domain the servers to use, and tell
-- Unbound and /etc/resolv.conf (src/dns_managers/unbound_manager.c). The same program is also the client
-- that sends the daemon its servers, given as URIs or as JSON (src/cli_commands).
--
-- Which file models which part; a definition has the name of the C function that it models:
--   Ip, Ip/Laws              src/ip_utilities.c and `struct sockaddr_storage`
--   Json                     the values of jansson
--   Number, Number/Decimal   `strtol` and the conversions of `printf` that the program uses
--   Network, Network/*       src/types/network_address.c: networks and reverse zones
--   Server, Server/*         src/types/server_uri.c: servers, their order, the table of the domains; the
--                            servers as JSON in Server/Json, as URIs in Server/Uri
--   HashTable                GLib's tables with text keys, as lists of entries
--   Config, Config/Sound     src/dnsconfd_config.h
--   Yaml, Yaml/Laws          the events of libyaml, and results of functions that read them
--   Options                  the levels and Booleans of src/log_utilities.c and config_utils.c
--   Options/Environment      src/configuration_parsing/environment_config.c
--   Options/File, File/*     src/configuration_parsing/config_file.c
--   Options/Global, Global/* src/configuration_parsing/global_options.c
--   Log, Log/Laws            src/log_utilities.c: where a message goes
--   Context                  src/fsm/fsm.h
--   Env                      the answers of the system calls, and the log of what the daemon did
--   Service                  src/service_management.c
--   Unbound, Unbound/*       src/dns_managers/unbound_manager.c
--   Fsm, Fsm/*               src/fsm/fsm.c
--   Daemon, Daemon/*         the handlers of src/dbus_server.c, with the parsers of an update and the reply to
--                            a status call; `main` in Daemon/Started
--   Client/Update, Update/*  src/cli_commands/cli_update.c and src/configuration_parsing/update_command.c
--   Client/Config, Config/*  src/cli_commands/cli_config.c and src/configuration_parsing/config_command.c
--   Examples/*               concrete values, and the theorems at work on them
--
-- State is passed explicitly. The record `Context` is `fsm_context_t`; an empty list is NULL, as in
-- GLib, and `Option` is any other pointer that may be NULL. An access through NULL is `none`, and ends a
-- transition as `crashed`. Each call that may fail takes the next answer of the environment, an arbitrary
-- function of the number of calls made before, so the theorems hold for every pattern of failures. What
-- the daemon writes and runs is a log, the latest first. `g_list_sort`, `inet_pton` and `inet_ntop` are
-- parameters with their documentation as hypotheses (`SortLaws`, `InetLaws`), for which Server/Sorting
-- and Examples/Addresses give instances. A C `int` keeps its wrap-around (`to_int32`), and so does the
-- serial, an `unsigned int`.
--
-- The loop of `state_transition` has a bound of 6 rounds. Each state has a rank of at most 6, and each
-- round that goes on leads to a state of lower rank, so the bound is never met from a waiting state. The
-- loops over the events of a YAML file have the number of the events as their fuel, of which each round takes
-- one at least. The bound of 1000 on the files that are read is the program's own.
--
-- A YAML file is the list of the events that libyaml gives for it, up to the first error. The parsers of an
-- update get what `g_variant_dict_lookup_value` returns for each key (`ServerDict`), and libidn2, sysfs and
-- the content of fresh memory as parameters (`Host`). argp gives its options one by one (`GlobalOption`,
-- `UpdateOption`); uriparser (`UriParser`), `json_loads`, `json_dumps`, `stat`, `glob` and `getenv` are
-- parameters about which nothing is assumed.
--
-- Not modelled: running out of memory (`malloc` and `strdup` succeed), freeing, the texts of log messages, the
-- registration of the D-Bus object, the choice of the command on the command line, and the status and
-- reload commands of the client, which make one D-Bus call.
mod Prelude
mod HashTable
pub mod Ip
pub mod Json
pub mod Number
pub mod Network
pub mod Server
pub mod Config
pub mod Yaml
pub mod Options
pub mod Log
pub mod Env
pub mod Context
pub mod Service
pub mod Unbound
pub mod Fsm
pub mod Daemon
pub mod Client
mod Examples
