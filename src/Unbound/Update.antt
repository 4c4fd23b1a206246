-- ===== src/Unbound/Update.antt =====
-- `update` of src/dns_managers/unbound_manager.c: the running Unbound is told what has changed.
pub mod Plan
pub mod Used
use dnsconfd.Prelude.{
  ℕ, ◌≡◌, Bool, true, false, not, ◌&&◌, ◌||◌, Option, none, some, List, [], ◌∷◌, Text, text_eq,
  if◌then◌else◌, ◌>>=◌, is_nil,
}
use dnsconfd.HashTable.{Table, lookup, insert, contains}
use dnsconfd.Server.{Server, server_uri_t_list_replace_elements_with_copies}
use dnsconfd.Config.{Config, Mode}
use dnsconfd.Env.{Env, World}
use dnsconfd.Context.{Context}
use dnsconfd.Unbound.Select.{get_used_servers}
use dnsconfd.Unbound.Authority.{get_effective_ca}
use dnsconfd.Unbound.Commands.{add_domain, remove_domain}
use dnsconfd.Unbound.Compare.{compare_servers}

-- Return values -1, 1 and 0; the last one comes with the new table.
pub data Updated : Type 0 where
  failed : Updated
  needs_reload : Updated
  updated : Table (List Server) → Updated

abbrev pub add_used : Text → List Server → Table (List Server) → Table (List Server)
add_used key used result =
    if is_nil used
    then result
    else insert key (server_uri_t_list_replace_elements_with_copies used) result

-- The first loop: the servers that are used, domain by domain. `none` is the access through NULL.
unfoldable pub collect_used :
    Mode → Table (List Server) → Table (List Server) → Option (Table (List Server))
collect_used mode [] result = some result
collect_used mode ((key, value) ∷ m) result =
    get_used_servers value mode key >>= λ used. collect_used mode m (add_used key used result)

unfoldable pub used_table : Mode → Table (List Server) → Option (Table (List Server))
unfolding collect_used
used_table mode table = collect_used mode table []

abbrev pub old_servers : Option (Table (List Server)) → Text → Option (List Server)
old_servers none key = none
old_servers (some table) key = lookup key table

-- The domain is there and its servers are the same. An empty list is NULL.
abbrev pub is_unchanged : List Server → Option (List Server) → Bool
is_unchanged used none = false
is_unchanged used (some old) = not (is_nil old) && not (compare_servers used old)

-- The second loop, over the new table.
unfoldable pub add_changed :
    Env → Option (Table (List Server)) → Table (List Server) → World → Bool × World
add_changed env old [] w = (true, w)
add_changed env old ((key, used) ∷ m) w =
    let (fine, w1) =
      if is_unchanged used (old_servers old key) then (true, w) else add_domain env key used w in
    let rest = add_changed env old m w1 in if fine then rest else (false, w1)

-- The third loop, over the old table.
unfoldable pub remove_gone : Env → Table (List Server) → Table (List Server) → World → Bool × World
remove_gone env new [] w = (true, w)
remove_gone env new ((key, value) ∷ m) w =
    let (fine, w1) = if contains key new then (true, w) else remove_domain env key w in
    let rest = remove_gone env new m w1 in if fine then rest else (false, w1)

abbrev pub remove_old :
    Env → Table (List Server) → Option (Table (List Server)) → World → Bool × World
remove_old env new none w = (true, w)
remove_old env new (some old) w = remove_gone env new old w

-- The commands that lead from the old table to the new one.
unfoldable pub apply_changes :
    Env → Option (Table (List Server)) → Table (List Server) → World → Bool × World
unfolding add_changed remove_gone
apply_changes env old new w =
    let (added, w1) = add_changed env old new w in
    if added then remove_old env new old w1 else (false, w1)

unfoldable pub finish : Table (List Server) → Bool × World → Updated × World
finish new (fine, w) = (if fine then updated new else failed, w)

-- What follows the choice of the CA.
unfoldable pub with_ca :
    Env → Context → Table (List Server) → Option Text × World → Option (Updated × World)
unfolding apply_changes finish
with_ca env ctx new (none, w) = some (failed, w)
with_ca env ctx new (some ca, w) = ctx.effective_ca >>= λ effective_ca.
    if not (text_eq ca effective_ca)
    then some (needs_reload, w)
    else some (finish new (apply_changes env ctx.current_unbound_domain_to_servers new w))

-- `none` is an access through a NULL pointer: of the table, or of the CA that is compared.
unfoldable pub update : Env → Context → Option (Updated × World)
unfolding with_ca
update env ctx = ctx.current_domain_to_servers >>= λ table.
    used_table ctx.resolution_mode table >>= λ new.
    with_ca env ctx new (get_effective_ca env (some new) ctx.resolution_mode ctx.config ctx.world)
