-- ===== src/Examples/Runs.antt =====
-- The theorems on concrete inputs.
use dnsconfd.Ip.{c_string}
use dnsconfd.Prelude.{◌≡◌, refl}
use dnsconfd.Env.{wrote}
use dnsconfd.Unbound.Select.{get_used_servers}
use dnsconfd.Unbound.ResolvConf.{
  write_resolv_conf, write_opened, with_backup, searches_of_table, searches_of_servers,
  add_searches,
}
use dnsconfd.Fsm.Actions.{set_resolv_conf, revert_resolv_conf, update_dns_manager}
use dnsconfd.Fsm.Restored.{set_resolv_conf-revert_resolv_conf}
use dnsconfd.Context.{
  Event, nothing, success, Context, kickoff, setting_resolv_conf, waiting_for_start_job,
  job_failure,
}
use dnsconfd.Server.Sorting.{insertion_sort-SortLaws}
use dnsconfd.Fsm.Transition.{state_transition, Ending, slept, dispatch, Round, refused, fault, next}
use dnsconfd.Fsm.Kept.Rounds.{round, over}
use dnsconfd.Unbound.Update.{update, with_ca, used_table, collect_used}
use dnsconfd.Unbound.Authority.{get_effective_ca, effective_ca_from_uris, effective_ca_from_config}
use dnsconfd.Server.{server_uri_t_list_replace_elements_with_copies}
use dnsconfd.HashTable.{insert}
use dnsconfd.Fsm.Total.{IsResting, Settled, state_transition-Settled}
use dnsconfd.Daemon.{dbus_server_run}
use dnsconfd.Daemon.Reachable.{
  update_call, start, step, acquired, terminate, handle, Returned, handle-Returned,
  Reachable-IsResting,
}
use dnsconfd.Prelude.{[], ◌∷◌, Option, none, some, Text, text_eq, codes}
use dnsconfd.Ip.Laws.{cleared-IsStorage}
use dnsconfd.Examples.Addresses.{inet_toy-InetLaws}
use dnsconfd.Examples.Data.{table, host, dict, dict-HasBytes, config, env, servers-HasZones}

abbrev first : Context
first = dbus_server_run config

first-IsResting : IsResting first
first-IsResting =
    Reachable-IsResting env insertion_sort-SortLaws host inet_toy-InetLaws (λ n. cleared-IsStorage)
      config servers-HasZones start

-- The daemon after it has acquired its name: it waits for the start job of Unbound.
abbrev started : Returned (handle host env acquired first)
started =
    handle-Returned env insertion_sort-SortLaws host inet_toy-InetLaws (λ n. cleared-IsStorage)
      acquired first tt first-IsResting

-- Then a client hands it a server.
abbrev told : Returned (handle host env (update_call 1 (dict ∷ [])) started.0)
told =
    handle-Returned env insertion_sort-SortLaws host inet_toy-InetLaws (λ n. cleared-IsStorage)
      (update_call 1 (dict ∷ [])) started.0 dict-HasBytes started.2

Reachable-IsResting_example : IsResting told.0
Reachable-IsResting_example =
    Reachable-IsResting env insertion_sort-SortLaws host inet_toy-InetLaws (λ n. cleared-IsStorage)
      config servers-HasZones
      (step (step start (acquired, tt, started.1))
        (update_call 1 (dict ∷ []), dict-HasBytes, told.1))

handle-Returned_example : Returned (handle host env terminate started.0)
handle-Returned_example =
    handle-Returned env insertion_sort-SortLaws host inet_toy-InetLaws (λ n. cleared-IsStorage)
      terminate started.0 tt started.2

state_transition-Settled_example : Settled (state_transition env first kickoff)
state_transition-Settled_example =
    state_transition-Settled env insertion_sort-SortLaws first kickoff first-IsResting
      (unfold dbus_server_run in refl)

-- A daemon that is about to write resolv.conf.
abbrev ready : Context
ready = record first {
  current_state = setting_resolv_conf;
  current_domain_to_servers = some table;
  effective_ca = some (codes "ca");
}

abbrev the_context : Context → Option (Event × Context) → Context
the_context c none = c
the_context c (some (e, d)) = d

abbrev set_once : Context
set_once = the_context ready (set_resolv_conf env ready)

abbrev after_round : Context → Round → Event × Context
after_round c refused = (nothing, c)
after_round c fault = (nothing, c)
after_round c (next e d) = (e, d)

-- The round that follows, with the update of Unbound.
abbrev pushed : Event × Context
pushed = after_round set_once (dispatch setting_resolv_conf success env set_once)

abbrev back : Context
back = the_context pushed.1 (revert_resolv_conf env pushed.1)

ready_set : set_resolv_conf env ready ≡ some (success, set_once)
unfolding set_resolv_conf write_resolv_conf write_opened with_backup searches_of_table
    searches_of_servers add_searches get_used_servers dbus_server_run text_eq
ready_set = refl

once_pushed : dispatch set_once.current_state success env set_once ≡ next pushed.0 pushed.1
unfolding dispatch set_resolv_conf write_resolv_conf write_opened with_backup searches_of_table
    searches_of_servers add_searches get_used_servers dbus_server_run text_eq update_dns_manager
    update with_ca used_table collect_used get_effective_ca insert effective_ca_from_uris
    server_uri_t_list_replace_elements_with_copies effective_ca_from_config
once_pushed = refl

pushed_back : revert_resolv_conf env pushed.1 ≡ some (success, back)
unfolding dispatch revert_resolv_conf set_resolv_conf write_resolv_conf write_opened with_backup
    searches_of_table searches_of_servers add_searches get_used_servers dbus_server_run text_eq
    update_dns_manager update with_ca used_table collect_used get_effective_ca insert
    effective_ca_from_uris server_uri_t_list_replace_elements_with_copies effective_ca_from_config
pushed_back = refl

set_resolv_conf-revert_resolv_conf_example :
    (b : Text) × (env.contents ready.world.calls (c_string ready.config.resolv_conf_path) ≡ some b)
    × (back.world.log ≡ wrote (c_string ready.config.resolv_conf_path) b ∷ pushed.1.world.log)
set_resolv_conf-revert_resolv_conf_example =
    set_resolv_conf-revert_resolv_conf env ready set_once pushed.1 back
      (unfold dbus_server_run in refl) ready_set (round success pushed.0 once_pushed over)
      pushed_back

-- A daemon whose start job fails.
abbrev waiting : Context
waiting = record ready { current_state = waiting_for_start_job }

abbrev the_end : Ending → Context
the_end (slept d) = d
the_end _ = waiting

abbrev ended : Context
ended = the_end (state_transition env waiting job_failure)
