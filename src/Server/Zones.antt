-- ===== src/Server/Zones.antt =====
-- The networks of servers in `server_list_to_hash_table` of src/types/server_uri.c.
use dnsconfd.Prelude.{◌≡◌, refl, some, List, [], ◌∷◌, ◌++◌, Text, All}
use dnsconfd.HashTable.{Table}
use dnsconfd.Ip.Laws.{IsAddress}
use dnsconfd.Network.{NetworkAddress}
use dnsconfd.Network.Reverse.{reverse_dns_fits}
use dnsconfd.Server.Valid.{IsComplete}
use dnsconfd.Network.Parse.{IsNetwork}
use dnsconfd.Server.{Server}
use dnsconfd.Server.Order.{compare_servers}
use dnsconfd.Server.Table.{
  Sort, server_list_to_hash_table, HasServers, zones_of, carriers, occurrences,
}
use dnsconfd.Server.Table.Laws.{server_list_to_hash_table_total, sorted-HasServers}
use dnsconfd.Server.Sorting.{SortLaws, sort_not_nil}

-- Every network of the server has a known family.
abbrev pub HasZones : Server → Type 0
HasZones s = All (λ n. IsAddress n.address) s.networks

IsComplete-HasZones : (s : Server) → IsComplete s → HasZones s
IsComplete-HasZones s h = go s.networks h.server.networks_fit
  where
    go : (l : List NetworkAddress) → All IsNetwork l → All (λ n. IsAddress n.address) l
    go [] k = tt
    go (n ∷ l) k = (k.0.addressed, go l k.1)

pub All-HasZones : (l : List Server) → All IsComplete l → All HasZones l
All-HasZones [] h = tt
All-HasZones (s ∷ l) h = (IsComplete-HasZones s h.0, All-HasZones l h.1)

zones_of_total :
    (ns : List NetworkAddress)
    → All (λ n. IsAddress n.address) ns
    → (zones : List Text) × (zones_of ns ≡ some zones)
zones_of_total [] h = ([], refl)
zones_of_total (n ∷ ns) h =
    let (zone, e, _) = reverse_dns_fits n h.0 in
    let (zones, f) = zones_of_total ns h.1 in (zone ∷ zones, rw (e, f))

carriers_total :
    (k : Text) (servers : List Server)
    → All HasZones servers
    → (l : List Server) × (carriers k servers ≡ some l)
carriers_total k [] h = ([], refl)
carriers_total k (s ∷ ss) h =
    let (zones, e) = zones_of_total s.networks h.0 in
    let (l, f) = carriers_total k ss h.1 in
    ((occurrences k s.routing_domains s ++ occurrences k zones s) ++ l, rw (e, f))

module _ {sort : Sort} (laws : SortLaws sort) where
  -- From every list of servers whose networks have addresses of a known family the table is built, and
  -- none of its entries is empty. The sort is one for which the documentation of `g_list_sort` holds.
  pub table_total :
      (servers : List Server)
      → All HasZones servers
      → (table : Table (List Server)) × (server_list_to_hash_table sort servers ≡ some table)
        × HasServers table
  table_total servers h =
      let (l, e) = carriers_total [] servers h in
      let (table, built) = server_list_to_hash_table_total sort servers l e in
      (
        table,
        built,
        sorted-HasServers sort (sort_not_nil sort laws compare_servers) servers table built,
      )
