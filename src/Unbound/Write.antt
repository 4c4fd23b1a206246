-- ===== src/Unbound/Write.antt =====
-- `write_configuration` of src/dns_managers/unbound_manager.c.
use dnsconfd.Prelude.{
  Bool, true, false, not, Option, none, some, List, ◌++◌, Text, codes, if◌then◌else◌, ◌>>=◌, is_nil,
}
use dnsconfd.HashTable.{Table}
use dnsconfd.Server.{Server}
use dnsconfd.Config.{Config, ConfigBoolean, on}
use dnsconfd.Env.{Env, World, tick, ask, emit, wrote, spoiled}
use dnsconfd.Context.{Context}
use dnsconfd.Unbound.Authority.{get_effective_ca}
use dnsconfd.Unbound.Zones.{
  Output, generate_forward_zones, generate_rpz_zones, generate_listen_address, root_fallback,
}

abbrev pub unbound_conf : Text
unbound_conf = codes "/run/dnsconfd/unbound.conf"

abbrev validator : ConfigBoolean → Bool
validator on = true
validator _ = false

unfoldable pub module_config : Config → Text
module_config config =
    codes "server:\n\tmodule-config: \""
    ++ ((if not (is_nil config.rpz_zones)
          then (if validator config.dnssec_enabled
              then codes "ipsecmod respip validator iterator"
              else codes "ipsecmod respip iterator")
          else if validator config.dnssec_enabled
          then codes "ipsecmod validator iterator"
          else codes "ipsecmod iterator")
        ++ codes "\"\n")

-- The exit by `goto error`.
abbrev pub give_up : Context → World → Bool × Context
give_up ctx w = (false, record ctx { world = emit (spoiled unbound_conf) (tick w) })

-- `ferror`, then `fclose`.
unfoldable pub close_configuration : Env → Context → Output → Bool × Context
close_configuration env ctx o =
    let (written, w1) = ask env o.world in
    let (closed, w2) = ask env w1 in
    if not written
    then give_up ctx w1
    else if not closed
    then (false, record ctx { world = emit (spoiled unbound_conf) w2 })
    else (true, record ctx { world = emit (wrote unbound_conf o.text) w2 })

unfoldable pub write_rpz : Env → Context → Output → Bool × Context
unfolding close_configuration
write_rpz env ctx o =
    if not o.fine
    then give_up ctx o.world
    else if is_nil ctx.config.rpz_zones
    then close_configuration env ctx o
    else (let r = generate_rpz_zones env ctx.config.rpz_zones o.text o.world in
        if not r.fine then give_up ctx r.world else close_configuration env ctx r)

unfoldable pub write_zones :
    Env → Context → Option (Table (List Server)) → Text → World → Option (Bool × Context)
unfolding write_rpz
write_zones env ctx none text w =
    some (write_rpz env ctx (record { fine = true; text = text ++ root_fallback; world = w }))
write_zones env ctx (some table) text w =
    generate_forward_zones env table ctx.resolution_mode text w >>= λ o. some (write_rpz env ctx o)

-- The CA is stored in the context before the zones are written.
unfoldable pub write_authority :
    Env → Context → Text → Option Text × World → Option (Bool × Context)
unfolding write_zones
write_authority env ctx text (none, w) = some (give_up ctx w)
write_authority env ctx text (some ca, w) =
    write_zones env (record ctx { effective_ca = some ca }) ctx.current_domain_to_servers
      (text ++ (codes "\ttls-cert-bundle: " ++ (ca ++ codes "\n"))) w

-- What follows the line of the listening address.
unfoldable pub write_opened_configuration : Env → Context → Output → Option (Bool × Context)
unfolding write_authority
write_opened_configuration env ctx o =
    if not o.fine
    then some (give_up ctx o.world)
    else write_authority env ctx o.text
        (get_effective_ca env ctx.current_domain_to_servers ctx.resolution_mode ctx.config o.world)

-- Whether it returned 0, and the context; `none` is the access through a NULL list.
unfoldable pub write_configuration : Env → Context → Option (Bool × Context)
unfolding write_opened_configuration
write_configuration env ctx =
    let (opened, w) = ask env ctx.world in
    if not opened
    then some (false, record ctx { world = w })
    else write_opened_configuration env ctx
        (generate_listen_address env ctx.config (module_config ctx.config) w)
