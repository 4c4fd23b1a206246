-- ===== src/Examples/System.antt =====
-- The config command and the status reply on concrete states.
use dnsconfd.Prelude.{Option, [], ◌≡◌, refl, true, none, some, codes, text_eq}
use dnsconfd.HashTable.{lookup}
use dnsconfd.HashTable.{insert}
use dnsconfd.Server.{server_uri_t_list_replace_elements_with_copies}
use dnsconfd.Unbound.Select.{get_used_servers}
use dnsconfd.Unbound.Authority.{get_effective_ca, effective_ca_from_uris, effective_ca_from_config}
use dnsconfd.Unbound.Update.{update, with_ca, used_table, collect_used}
use dnsconfd.Unbound.Commands.{add_domain, execute_unbound_command}
use dnsconfd.Unbound.Update.Used.{given_servers}
use dnsconfd.Fsm.Actions.{update_dns_manager}
use dnsconfd.Context.{Context, Event, success}
use dnsconfd.Daemon.{dbus_server_run}
use dnsconfd.Daemon.Status.{config_to_json}
use dnsconfd.Daemon.Status.Laws.{told_under, IsTold, config_to_json-IsTold}
use dnsconfd.Client.Config.{
  symlink, file, System, Answers, install, uninstall, cli_config_command, exit_ok,
}
use dnsconfd.Client.Config.Laws.{
  Achieves, Given, IsDisabled, flushed, install-Achieves, uninstall-Achieves,
}
use dnsconfd.Examples.Addresses.{inet_toy}
use dnsconfd.Examples.Data.{table, config, env, servers, table_built}

abbrev answers : Answers
answers = record { succeeds = λ n. true; user = some 500; owner = 0; group = 0; partial = [] }

abbrev linked : System
linked = record { nm_config = none; resolv_conf = symlink (some (7, 7)); calls = 0; reloads = 0 }

install-Achieves_example :
    Achieves
      (Given answers 0 (some (flushed answers 2)))
      (cli_config_command answers install linked)
install-Achieves_example = install-Achieves answers linked

installed : (t : System) × (cli_config_command answers install linked ≡ (exit_ok, t))
unfolding cli_config_command
installed = (_, refl)

uninstall-Achieves_example :
    Achieves
      (λ u. IsDisabled u.nm_config × (u.resolv_conf ≡ file 0 0))
      (cli_config_command answers uninstall installed.0)
uninstall-Achieves_example = uninstall-Achieves answers answers linked installed.0 installed.1

-- A daemon about to update Unbound, which runs with the CA of the one server that has one.
abbrev ready : Context
ready = record (dbus_server_run config) {
  current_domain_to_servers = some table;
  effective_ca =
      (get_effective_ca env (some table) (dbus_server_run config).resolution_mode config
        (dbus_server_run config).world).0;
}

abbrev the_context : Context → Option (Event × Context) → Context
the_context c none = c
the_context c (some (e, d)) = d

abbrev refreshed : Context
refreshed = the_context ready (update_dns_manager env ready)

update_ran : update_dns_manager env ready ≡ some (success, refreshed)
unfolding dbus_server_run text_eq update_dns_manager update with_ca used_table collect_used
    get_effective_ca insert get_used_servers effective_ca_from_uris effective_ca_from_config
    server_uri_t_list_replace_elements_with_copies add_domain execute_unbound_command
update_ran = refl

config_to_json-IsTold_example :
    IsTold inet_toy
      (given_servers (codes "lan") ready.resolution_mode (lookup (codes "lan") table))
      (told_under (codes "lan") (config_to_json inet_toy refreshed))
config_to_json-IsTold_example =
    config_to_json-IsTold env ready refreshed servers table (codes "lan") table_built refl
      update_ran
