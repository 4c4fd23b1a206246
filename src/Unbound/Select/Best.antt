-- ===== src/Unbound/Select/Best.antt =====
-- From the list of servers to those that Unbound is told of: `server_list_to_hash_table` of
-- src/types/server_uri.c, and then `get_used_servers` of src/dns_managers/unbound_manager.c.
use mathlib.Core.List.{reverse, Perm}
use dnsconfd.Prelude.{
  ◌≡◌, sym, ap, subst, ◌∙◌, true, false, inl, inr, none, some, List, [], ◌∷◌, ◌++◌, Text, text_eq,
  arith, All, All-append, keep, if◌then◌else◌, Bool-cases, is_nil, >>=-eq-some,
}
use dnsconfd.Prelude.Int.{pos, ltb_ℤ}
use dnsconfd.HashTable.{Table, lookup}
use dnsconfd.Config.{Mode}
use dnsconfd.Server.{Server}
use dnsconfd.Server.Order.{compare_servers, IsSmall, Ranks, Before-Ranks, Ranks-Before}
use dnsconfd.Server.Table.{Sort, server_list_to_hash_table, carriers, occurrences, zones_of}
use dnsconfd.Server.Table.Laws.{server_list_to_hash_table_lem}
use dnsconfd.Server.Sorting.{SortLaws, sort_not_nil, SortedBy, NotAfter, IsOrderOn}
use dnsconfd.Unbound.Select.{get_used_servers}
use dnsconfd.Unbound.Select.Laws.{InOrder}
use dnsconfd.Unbound.Select.Ranks.{
  ranks, is_best, is_small, ranks-Ranks, Ranks-trans, every-All, All-every, every-Perm, used_best,
}

compare_servers-IsOrderOn : IsOrderOn compare_servers IsSmall
compare_servers-IsOrderOn = record {
  total = λ a b ha hb h. Ranks-Before b a hb ha (turned a b ha hb h);
  trans = λ a b c ha hb hc h k.
      Ranks-Before a c ha hc
        (Ranks-trans a b c (Before-Ranks a b ha hb h) (Before-Ranks b c hb hc k));
}
  where
    either : (a b : Server) → ranks a b ≡ false → ranks b a ≡ true
    either a b h = ground arith

    turned :
        (a b : Server)
        → IsSmall a
        → IsSmall b
        → ltb_ℤ (pos 0) (compare_servers a b) ≡ true
        → Ranks b a
    turned a b ha hb h = elim (Bool-cases (ranks a b)) [
      | inl e ↦ let k = Ranks-Before a b ha hb (ranks-Ranks a b e) in ground (arith, h, k)
      | inr e ↦ ranks-Ranks b a (either a b e)
    ]

sorted-InOrder :
    (l : List Server) → All IsSmall l → SortedBy (NotAfter compare_servers) l → InOrder l
sorted-InOrder [] small h = tt
sorted-InOrder (s ∷ l) small h = (go l small.1 h.0, sorted-InOrder l small.1 h.1)
  where
    go : (m : List Server) → All IsSmall m → All (NotAfter compare_servers s) m → All (Ranks s) m
    go [] k h = tt
    go (x ∷ m) k h = (Before-Ranks s x small.0 k.0 h.0, go m k.1 h.1)

occurrences-All :
    (P : Server → Type 0) (k : Text) (ds : List Text) (s : Server)
    → P s
    → All P (occurrences k ds s)
occurrences-All P k [] s h = tt
occurrences-All P k (d ∷ ds) s h = elim (Bool-cases (text_eq d k)) [
  | inl e ↦ rw e (h, occurrences-All P k ds s h)
  | inr e ↦ rw e (occurrences-All P k ds s h)
]

carriers-All :
    (P : Server → Type 0) (k : Text) (servers l : List Server)
    → All P servers
    → carriers k servers ≡ some l
    → All P l
carriers-All P k [] l h e = let same : [] ≡ l = cc in subst (All P) same tt
carriers-All P k (s ∷ ss) l h e =
    let (zones, f, e1) = >>=-eq-some (zones_of s.networks) _ e in
    let (rest, g, e2) = >>=-eq-some (carriers k ss) _ e1 in
    let same : (occurrences k s.routing_domains s ++ occurrences k zones s) ++ rest ≡ l = cc in
    subst (All P) same (
      All-append P (occurrences k s.routing_domains s ++ occurrences k zones s) rest
        (All-append P (occurrences k s.routing_domains s) (occurrences k zones s)
          (occurrences-All P k s.routing_domains s h.0) (occurrences-All P k zones s h.0))
        (carriers-All P k ss rest h.1 g))

is_small-IsSmall : (s : Server) → is_small s ≡ true → IsSmall s
is_small-IsSmall s h = ground arith

IsSmall-is_small : (s : Server) → IsSmall s → is_small s ≡ true
IsSmall-is_small s h = ground arith

module _ (sort : Sort) (laws : SortLaws sort) where
  sort-IsSmall : (l : List Server) → All IsSmall l → All IsSmall (sort compare_servers l)
  sort-IsSmall l h = every-All is_small IsSmall is_small-IsSmall (sort compare_servers l) (
      every-Perm is_small (sort compare_servers l) l (laws.sort_perm compare_servers l)
      ∙ All-every is_small IsSmall IsSmall-is_small l h)

  -- Where the table has an entry for a domain, the entry is a rearrangement of the servers that ask
  -- for the domain, and Unbound is given exactly those that rank as high as all others of the
  -- domain by priority, then protocol, then DNSSEC, and that the mode lets answer. The sort is one
  -- for which the documentation of `g_list_sort` holds, and the priorities lie between -2^30 and
  -- 2^30, where the comparison does not overflow.
  pub used_servers-best :
      (servers : List Server) (table : Table (List Server)) (domain : Text) (l : List Server)
      (mode : Mode)
      → All IsSmall servers
      → server_list_to_hash_table sort servers ≡ some table
      → lookup domain table ≡ some l
      → (c : List Server) × (carriers domain servers ≡ some c)
        × Perm l c
        × (get_used_servers l mode domain ≡ some (reverse (keep (is_best mode domain l) l)))
  used_servers-best servers table domain l mode small built found =
      let (distinct, entries) = server_list_to_hash_table_lem sort servers table built in
      let (c, carried, at) = entries domain in
      let (full, same) = entry l c (sym found ∙ at) in
      let order =
        sorted-InOrder (sort compare_servers c)
          (sort-IsSmall c (carriers-All IsSmall domain servers c small carried))
          (laws.sort_sorted compare_servers IsSmall c compare_servers-IsOrderOn
            (carriers-All IsSmall domain servers c small carried)) in
      (
        c,
        carried,
        subst (λ m. Perm m c) (sym same) (laws.sort_perm compare_servers c),
        used_best mode domain l (filled l same (sort_not_nil sort laws compare_servers c full))
            (subst InOrder (sym same) order),
      )
    where
      entry :
          (l c : List Server)
          → some l ≡ (if is_nil c then none else some (sort compare_servers c))
          → (is_nil c ≡ false) × (l ≡ sort compare_servers c)
      entry l c h = elim (Bool-cases (is_nil c)) [
        | inl e ↦ cc (rw e at h)
        | inr e ↦ (e, let r : some l ≡ some (sort compare_servers c) = rw e at h in cc)
      ]

      filled : (l : List Server) {m : List Server} → l ≡ m → is_nil m ≡ false → is_nil l ≡ false
      filled l e h = ap is_nil e ∙ h
