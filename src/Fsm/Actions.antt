-- ===== src/Fsm/Actions.antt =====
-- The actions of the state machine: the functions of src/fsm/fsm.c that `state_transition` calls. An
-- action returns the event that follows and the context; `none` is an access through NULL.
use dnsconfd.Ip.{c_string}
use dnsconfd.Prelude.{
  ℕ, ◌+◌, ◌%◌, Bool, true, false, not, Option, none, some, [], ◌++◌, Text, codes, if◌then◌else◌,
  ◌==◌, ◌>>=◌,
}
use dnsconfd.Server.Table.{server_list_to_hash_table}
use dnsconfd.Env.{Env, World, ask, tick, emit, wrote, spoiled, notified, signalled}
use dnsconfd.Context.{Context, Event, success, failure, reload}
use dnsconfd.Service.{set_service_status, service_management_subscribe_job_removed}
use dnsconfd.Unbound.Update.{Updated, failed, needs_reload, updated, update}
use dnsconfd.Unbound.ResolvConf.{write_resolv_conf, Written}
use dnsconfd.Unbound.Write.{write_configuration}

unfoldable pub set_dynamic_servers : Context → Context
set_dynamic_servers ctx = record ctx {
  current_dynamic_servers = ctx.new_dynamic_servers;
  new_dynamic_servers = [];
}

-- `unsigned int`: the next value, and 1 behind the largest one.
unfoldable pub next_serial : ℕ → ℕ
next_serial serial =
    (serial + (1 + (if (serial + 1) % 0x1_0000_0000 == 0 then 1 else 0))) % 0x1_0000_0000

-- It always returns EVENT_NONE.
unfoldable pub update_context : Env → Context → Context
unfolding next_serial
update_context env ctx =
    let all = ctx.config.static_servers ++ ctx.current_dynamic_servers in
    record ctx {
      all_servers = all;
      current_domain_to_servers = server_list_to_hash_table env.sort all;
      requested_configuration_serial = next_serial ctx.requested_configuration_serial;
    }

abbrev pub event_of : Bool × Context → Event × Context
event_of (fine, ctx) = (if fine then success else failure, ctx)

abbrev pub then_write : Env → Bool × Context → Option (Event × Context)
then_write env (false, ctx) = some (failure, ctx)
then_write env (true, ctx) = write_configuration env ctx >>= λ r. some (event_of r)

unfoldable pub fsm_starting_event_kickoff : Env → Context → Option (Event × Context)
unfolding update_context
fsm_starting_event_kickoff env ctx =
    then_write env (service_management_subscribe_job_removed env (update_context env ctx))

unfoldable pub fsm_configuring_dns_manager_event_success : Env → Context → Event × Context
fsm_configuring_dns_manager_event_success env ctx =
    event_of (set_service_status env ctx (codes "ready") (codes "restart"))

abbrev pub after_resolv_conf : Context → Written → Event × Context
after_resolv_conf ctx (fine, backup, w) =
    (if fine then success else failure, record ctx { resolv_conf_backup = backup; world = w })

unfoldable pub set_resolv_conf : Env → Context → Option (Event × Context)
set_resolv_conf env ctx = ctx.current_domain_to_servers >>= λ table.
    write_resolv_conf env ctx.config table ctx.resolv_conf_backup ctx.resolution_mode ctx.world
    >>= λ r. some (after_resolv_conf ctx r)

-- The new table is stored, and its serial becomes the current one, which is announced.
abbrev pub after_update : Context → Updated × World → Event × Context
after_update ctx (failed, w) = (failure, record ctx { world = w })
after_update ctx (needs_reload, w) = (reload, record ctx { world = w })
after_update ctx (updated table, w) = (
  success,
  record ctx {
    current_unbound_domain_to_servers = some table;
    current_configuration_serial = ctx.requested_configuration_serial;
    world =
        emit (signalled ctx.requested_configuration_serial) (emit (notified (codes "READY=1\n")) w);
  },
)

unfoldable pub update_dns_manager : Env → Context → Option (Event × Context)
update_dns_manager env ctx = update env ctx >>= λ r. some (after_update ctx r)

unfoldable pub submit_stop_job : Env → Context → Event × Context
submit_stop_job env ctx = event_of (set_service_status env ctx (codes "stopped") (codes "stop"))

-- The file is opened, printed to and closed, in that order; the first failure is enough.
abbrev pub revert_with : Env → Context → Text → Event × Context
revert_with env ctx content =
    let path = c_string ctx.config.resolv_conf_path in
    let (opened, w1) = ask env ctx.world in
    let (printed, w2) = ask env w1 in
    let (closed, w3) = ask env w2 in
    if not opened
    then (failure, record ctx { world = w1 })
    else if not printed
    then (failure, record ctx { world = emit (spoiled path) w3 })
    else if not closed
    then (failure, record ctx { world = emit (spoiled path) w3 })
    else (success, record ctx { world = emit (wrote path content) w3 })

-- The backup is read only if the file can be opened.
unfoldable pub revert_resolv_conf : Env → Context → Option (Event × Context)
revert_resolv_conf env ctx = elim ctx.resolv_conf_backup [
  | some content ↦ some (revert_with env ctx content)
  | none ↦
      if not (env.succeeds ctx.world.calls)
      then some (failure, record ctx { world = tick ctx.world })
      else none
]

unfoldable pub set_exit_code : Context → ℕ → Context
set_exit_code ctx code = if ctx.exit_code == 0 then record ctx { exit_code = code } else ctx
