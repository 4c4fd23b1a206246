-- ===== src/Server/Table/Laws.antt =====
-- The table of `server_list_to_hash_table` in src/types/server_uri.c, against the list of the servers.
use mathlib.Core.List.{append-nil, append_assoc}
use dnsconfd.Prelude.{
  ◌≡◌, refl, sym, ap, subst, ◌∙◌, false, inl, inr, none, some, List, [], ◌∷◌, ◌++◌, Text,
  if◌then◌else◌, Option-cases, ◌>>=◌, >>=-eq-some, is_nil,
}
use dnsconfd.HashTable.{
  Table, lookup, HasDistinctKeys, lookup-AllValues, map_values, lookup-map_values,
  map_values-HasDistinctKeys,
}
use dnsconfd.Network.{NetworkAddress, network_address_t_to_reverse_dns}
use dnsconfd.Server.{Server}
use dnsconfd.Server.Order.{compare_servers}
use dnsconfd.Server.Table.{
  append_server, append_domains, append_networks, append_servers, Sort, server_list_to_hash_table,
  servers_at, occurrences, zones_of, carriers, HasServers,
}
use dnsconfd.Server.Table.Domains.{
  append_domains-HasServers, append_domains-HasDistinctKeys, servers_at-append_domains,
}

-- The loop over the networks is the loop over the names of their zones.
append_networks_lem :
    (t : Table (List Server)) (ns : List NetworkAddress) (s : Server)
    → append_networks t ns s ≡ (zones_of ns >>= λ zones. some (append_domains t zones s))
unfolding append_networks append_domains
append_networks_lem t [] s = refl
append_networks_lem t (n ∷ ns) s = elim (Option-cases (network_address_t_to_reverse_dns n)) [
  | inl e ↦ rw (e, ◌>>=◌)
  | inr (zone, e) ↦
      rw (e, append_networks_lem (append_server t zone s) ns s)
        (elim (Option-cases (zones_of ns)) [
          | inl f ↦ rw (f, ◌>>=◌)
          | inr (zones, f) ↦ rw (f, ◌>>=◌)
        ])
]

-- What one server adds.
abbrev with_server : Table (List Server) → List Text → Server → Table (List Server)
with_server t zones s = append_domains (append_domains t s.routing_domains s) zones s

append_servers_cons :
    (t : Table (List Server)) (s : Server) (ss : List Server) (zones : List Text)
    → zones_of s.networks ≡ some zones
    → append_servers t (s ∷ ss) ≡ append_servers (with_server t zones s) ss
unfolding append_servers
append_servers_cons t s ss zones e =
    rw (append_networks_lem (append_domains t s.routing_domains s) s.networks s, e)

append_servers-none :
    (t : Table (List Server)) (s : Server) (ss : List Server)
    → zones_of s.networks ≡ none
    → append_servers t (s ∷ ss) ≡ none
unfolding append_servers
append_servers-none t s ss e =
    rw (append_networks_lem (append_domains t s.routing_domains s) s.networks s, e)

append_servers-Appended :
    (ss : List Server) (t t' : Table (List Server))
    → HasServers t
    → HasDistinctKeys t
    → append_servers t ss ≡ some t'
    → HasServers t'
      × HasDistinctKeys t'
      × ((k : Text)
          → (l : List Server) × (carriers k ss ≡ some l) × (servers_at k t' ≡ servers_at k t ++ l))
append_servers-Appended [] t t' h d e =
    let same : t ≡ t' = unfold append_servers in cc in
    (
      subst HasServers same h,
      subst HasDistinctKeys same d,
      λ k. ([], refl, ap (servers_at k) (sym same) ∙ sym (append-nil (servers_at k t))),
    )
append_servers-Appended (s ∷ ss) t t' h d e = elim (Option-cases (zones_of s.networks)) [
  | inl f ↦ cc (append_servers-none t s ss f)
  | inr (zones, f) ↦
      let next = with_server t zones s in
      let (h', d', holds) =
        append_servers-Appended ss next t'
          (append_domains-HasServers (append_domains t s.routing_domains s) zones s
            (append_domains-HasServers t s.routing_domains s h))
          (append_domains-HasDistinctKeys (append_domains t s.routing_domains s) zones s
            (append_domains-HasDistinctKeys t s.routing_domains s d))
          (sym (append_servers_cons t s ss zones f) ∙ e) in
      (h', d', λ k. carried s t zones k ss f (holds k))
]
  where
    carried :
        (s : Server) (t : Table (List Server)) (zones : List Text) (k : Text) (ss : List Server)
        → zones_of s.networks ≡ some zones
        → (l : List Server) × (carriers k ss ≡ some l)
          × (servers_at k t' ≡ servers_at k (with_server t zones s) ++ l)
        → (l : List Server) × (carriers k (s ∷ ss) ≡ some l)
          × (servers_at k t' ≡ servers_at k t ++ l)
    carried s t zones k ss f (l, c, at) =
        let own = occurrences k s.routing_domains s in
        let of_zones = occurrences k zones s in
        (
          (own ++ of_zones) ++ l,
          rw (f, c),
          at
              ∙ rw (
                servers_at-append_domains k (append_domains t s.routing_domains s) zones s,
                servers_at-append_domains k t s.routing_domains s,
                append_assoc (servers_at k t) own of_zones,
                append_assoc (servers_at k t) (own ++ of_zones) l,
              ),
        )

module _ (sort : Sort) where
  -- Where a table is built, whatever the sort does, it has one entry for each domain that some server asks for, by a routing
  -- domain or by the reverse zone of a network, and none for any other domain. The entry holds
  -- those servers, each as often as it asks, put in order by the sort.
  pub server_list_to_hash_table_lem :
      (servers : List Server) (table : Table (List Server))
      → server_list_to_hash_table sort servers ≡ some table
      → HasDistinctKeys table
        × ((k : Text)
            → (l : List Server) × (carriers k servers ≡ some l)
              × (lookup k table ≡ (if is_nil l then none else some (sort compare_servers l))))
  unfolding server_list_to_hash_table
  server_list_to_hash_table_lem servers table e =
      let (t, built, e') = >>=-eq-some (append_servers [] servers) _ e in
      let (h, d, holds) = append_servers-Appended servers [] t tt tt built in
      let same : map_values (sort compare_servers) t ≡ table = cc in
      (
        subst HasDistinctKeys same (map_values-HasDistinctKeys (sort compare_servers) t d),
        λ k. let (l, c, at) = holds k in (l, c, rw (← same) (entry t k l h (at ∙ nothing k l))),
      )
    where
      nothing : (k : Text) (l : List Server) → servers_at k [] ++ l ≡ l
      nothing k l = unfold lookup in refl

      entry :
          (t : Table (List Server)) (k : Text) (l : List Server)
          → HasServers t
          → servers_at k t ≡ l
          → lookup k (map_values (sort compare_servers) t)
            ≡ (if is_nil l then none else some (sort compare_servers l))
      entry t k l h at =
          rw (lookup-map_values (sort compare_servers) k t) (elim (Option-cases (lookup k t)) [
            | inl f ↦ rw (f, ← at, servers_at, f)
            | inr (m, f) ↦
                let full : is_nil m ≡ false = lookup-AllValues _ k t m h f in
                let found : m ≡ l = rw (servers_at, f) at at in rw (f, ← found, full)
          ])

  -- It succeeds if every network has a reverse zone.
  pub server_list_to_hash_table_total :
      (servers : List Server) (l : List Server)
      → carriers [] servers ≡ some l
      → (table : Table (List Server)) × (server_list_to_hash_table sort servers ≡ some table)
  unfolding server_list_to_hash_table
  server_list_to_hash_table_total servers l e =
      let (t, built) = run servers [] l e in (map_values (sort compare_servers) t, rw built)
    where
      run :
          (ss : List Server) (t : Table (List Server)) (l : List Server)
          → carriers [] ss ≡ some l
          → (t' : Table (List Server)) × (append_servers t ss ≡ some t')
      run [] t l e = (t, unfold append_servers in refl)
      run (s ∷ ss) t l e =
          let (zones, f, e1) = >>=-eq-some (zones_of s.networks) _ e in
          let (rest, g, e2) = >>=-eq-some (carriers [] ss) _ e1 in
          let (t', built) = run ss (with_server t zones s) rest g in
          (t', append_servers_cons t s ss zones f ∙ built)

  map_values-HasServers :
      ((l : List Server) → is_nil l ≡ false → is_nil (sort compare_servers l) ≡ false)
      → (t : Table (List Server)) → HasServers t
      → HasServers (map_values (sort compare_servers) t)
  unfolding map_values
  map_values-HasServers full [] h = tt
  map_values-HasServers full ((k, l) ∷ t) h = (full l h.0, map_values-HasServers full t h.1)

  -- No entry is empty, if the sort makes no list empty.
  pub sorted-HasServers :
      ((l : List Server) → is_nil l ≡ false → is_nil (sort compare_servers l) ≡ false)
      → (servers : List Server) (table : Table (List Server))
      → server_list_to_hash_table sort servers ≡ some table
      → HasServers table
  unfolding server_list_to_hash_table
  sorted-HasServers full servers table e =
      let (t, built, e') = >>=-eq-some (append_servers [] servers) _ e in
      let (h, d, holds) = append_servers-Appended servers [] t tt tt built in
      let same : map_values (sort compare_servers) t ≡ table = cc in
      subst HasServers same (map_values-HasServers full t h)
