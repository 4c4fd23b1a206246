-- ===== src/Unbound/Total.antt =====
-- The loops of src/dns_managers/unbound_manager.c over a table whose entries all have a server.
use dnsconfd.Prelude.{
  ◌≡◌, refl, Bool, false, inl, inr, some, List, [], ◌∷◌, Text, text_eq, codes, if◌then◌else◌,
  is_nil, Bool-cases, ◌||◌,
}
use dnsconfd.HashTable.{Table}
use dnsconfd.Server.{Server}
use dnsconfd.Server.Table.{HasServers}
use dnsconfd.Config.{Mode}
use dnsconfd.Env.{Env, World}
use dnsconfd.Unbound.Select.{get_used_servers}
use dnsconfd.Unbound.Zones.{Output, zones_loop, generate_forward_zones, one_zone}
use dnsconfd.Unbound.ResolvConf.{searches_of_table, searches_of_servers}
use dnsconfd.Unbound.Update.{collect_used, used_table, add_used}

pub used_some :
    (l : List Server) (mode : Mode) (d : Text)
    → is_nil l ≡ false
    → (used : List Server) × (get_used_servers l mode d ≡ some used)
unfolding get_used_servers
used_some [] mode d h = cc
used_some (s ∷ l) mode d h = (_, refl)

zones_loop_total :
    (env : Env) (mode : Mode) (m : Table (List Server)) (root : Bool) (text : Text) (w : World)
    → HasServers m
    → (o : Output) × (zones_loop env mode m root text w ≡ some o)
unfolding zones_loop
zones_loop_total env mode [] root text w h = (_, refl)
zones_loop_total env mode ((key, l) ∷ m) root text w h =
    let (used, e) = used_some l mode key h.0 in
    rw e (
      go used (zones_loop_total env mode m root text w h.1)
        (λ r t w'. zones_loop_total env mode m r t w' h.1))
  where
    go :
        (used : List Server)
        → ((o : Output) × (zones_loop env mode m root text w ≡ some o))
        → ((r : Bool) (t : Text) (w' : World)
            → (o : Output) × (zones_loop env mode m r t w' ≡ some o))
        → (o : Output) × (elim used [
          | [] ↦ zones_loop env mode m root text w
          | s ∷ l ↦
              let o = one_zone env key (s ∷ l) text w in
              let rest = zones_loop env mode m (root || text_eq key (codes ".")) o.text o.world in
              if o.fine then rest else some o
        ]
            ≡ some o)
    go [] now later = now
    go (s ∷ u) now later =
        let o = one_zone env key (s ∷ u) text w in
        elim (Bool-cases o.fine) [
          | inl f ↦
              let (o', e) = later (root || text_eq key (codes ".")) o.text o.world in (o', rw f e)
          | inr f ↦ (o, rw f)
        ]

pub generate_forward_zones_total :
    (env : Env) (m : Table (List Server)) (mode : Mode) (text : Text) (w : World)
    → HasServers m
    → (o : Output) × (generate_forward_zones env m mode text w ≡ some o)
unfolding generate_forward_zones
generate_forward_zones_total env m mode text w = zones_loop_total env mode m false text w

pub searches_total :
    (mode : Mode) (seen : List Text) (m : Table (List Server))
    → HasServers m
    → (l : List Text) × (searches_of_table mode seen m ≡ some l)
unfolding searches_of_table
searches_total mode seen [] h = (seen, refl)
searches_total mode seen ((key, l) ∷ m) h =
    let (used, e) = used_some l mode key h.0 in
    let (found, f) = searches_total mode (searches_of_servers seen used) m h.1 in (found, rw e f)

collect_total :
    (mode : Mode) (m result : Table (List Server))
    → HasServers m
    → (new : Table (List Server)) × (collect_used mode m result ≡ some new)
unfolding collect_used
collect_total mode [] result h = (result, refl)
collect_total mode ((key, l) ∷ m) result h =
    let (used, e) = used_some l mode key h.0 in
    let (new, f) = collect_total mode m (add_used key used result) h.1 in (new, rw e f)

pub used_table_total :
    (mode : Mode) (m : Table (List Server))
    → HasServers m
    → (new : Table (List Server)) × (used_table mode m ≡ some new)
unfolding used_table
used_table_total mode m = collect_total mode m []
