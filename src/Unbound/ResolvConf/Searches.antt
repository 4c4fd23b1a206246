-- ===== src/Unbound/ResolvConf/Searches.antt =====
-- The search domains that `write_resolv_conf` of src/dns_managers/unbound_manager.c writes.
use dnsconfd.Prelude.{
  ◌≡◌, refl, sym, ap, ◌∙◌, Bool, true, false, ◌||◌, Option, none, some, List, [], ◌∷◌, ◌++◌, Text,
  text_eq, text_eq_sound, text_eq_refl, arith, subst, if◌then◌else◌, >>=-eq-some, Bool-cases, inl,
  inr,
}
use dnsconfd.HashTable.{Table}
use dnsconfd.Server.{Server}
use dnsconfd.Server.Table.{HasServers}
use dnsconfd.Config.{Mode}
use dnsconfd.Unbound.Select.{get_used_servers}
use dnsconfd.Unbound.ResolvConf.{member, add_searches, searches_of_servers, searches_of_table}
use dnsconfd.Unbound.Total.{searches_total}

-- No text stands twice in the list.
abbrev pub IsDistinct : List Text → Type 0
IsDistinct [] = Unit
IsDistinct (d ∷ ds) = (member d ds ≡ false) × IsDistinct ds

-- A server of the list has the domain among its search domains.
abbrev pub any_asks : Text → List Server → Bool
any_asks k [] = false
any_asks k (s ∷ l) = member k s.search_domains || any_asks k l

abbrev asks_if_some : Text → Option (List Server) → Bool
asks_if_some k none = false
asks_if_some k (some used) = any_asks k used

-- A server that is used for some domain of the table has it.
abbrev pub used_asks : Mode → Text → Table (List Server) → Bool
used_asks mode k [] = false
used_asks mode k ((key, value) ∷ m) =
    asks_if_some k (get_used_servers value mode key) || used_asks mode k m

||-assoc : (a b c : Bool) → ((a || b) || c) ≡ (a || (b || c))
||-assoc a b c = ground arith

||-false_right : (a : Bool) → (a || false) ≡ a
||-false_right a = ground arith

text_eq_comm_false : (a b : Text) → text_eq a b ≡ false → text_eq b a ≡ false
text_eq_comm_false a b h = elim (Bool-cases (text_eq b a)) [
  | inl e ↦ cc (text_eq_refl b, text_eq_sound b a e, e, h)
  | inr e ↦ e
]

member-append : (k : Text) (a b : List Text) → member k (a ++ b) ≡ (member k a || member k b)
member-append k [] b = refl
member-append k (x ∷ a) b = rw (member-append k a b) (ground arith)

append-IsDistinct :
    (seen : List Text) (d : Text)
    → IsDistinct seen
    → member d seen ≡ false
    → IsDistinct (seen ++ (d ∷ []))
append-IsDistinct [] d h m = (refl, tt)
append-IsDistinct (x ∷ seen) d h m = elim (Bool-cases (text_eq x d)) [
  | inl e ↦ cc (rw e at m)
  | inr e ↦ (
    member-append x seen (d ∷ []) ∙ rw (h.0, text_eq_comm_false x d e),
    append-IsDistinct seen d h.1 (rw e at m),
  )
]

-- What the domain is added to, if it is not there.
added_member :
    (k : Text) (seen : List Text) (d : Text)
    → member k (if member d seen then seen else seen ++ (d ∷ []))
      ≡ (member k seen || (if text_eq d k then true else false))
added_member k seen d = elim (Bool-cases (member d seen)) [
  | inl e ↦ rw e (elim (Bool-cases (text_eq d k)) [
    | inl same ↦ rw same (rw (text_eq_sound d k same) at e ∙ sym (or_true (member k seen)))
    | inr other ↦ rw other (sym (||-false_right (member k seen)))
  ])
  | inr e ↦ rw e (member-append k seen (d ∷ []))
]
  where
    or_true : (a : Bool) → (a || true) ≡ true
    or_true a = ground arith

add_searches_lem :
    (seen ds : List Text)
    → IsDistinct seen
    → IsDistinct (add_searches seen ds)
      × ((k : Text) → member k (add_searches seen ds) ≡ (member k seen || member k ds))
unfolding add_searches
add_searches_lem seen [] h = (h, λ k. sym (||-false_right (member k seen)))
add_searches_lem seen (d ∷ ds) h =
    let next = if member d seen then seen else seen ++ (d ∷ []) in
    let (distinct, members) = add_searches_lem next ds kept in
    (
      distinct,
      λ k.
          members k
          ∙ (ap (λ b. b || member k ds) (added_member k seen d)
              ∙ (||-assoc (member k seen) (if text_eq d k then true else false) (member k ds)
                  ∙ ap (λ b. member k seen || b) (joined (text_eq d k) (member k ds)))),
    )
  where
    kept : IsDistinct (if member d seen then seen else seen ++ (d ∷ []))
    kept = elim (Bool-cases (member d seen)) [
      | inl e ↦ rw e h
      | inr e ↦ rw e (append-IsDistinct seen d h e)
    ]

    joined : (a b : Bool) → ((if a then true else false) || b) ≡ (if a then true else b)
    joined true b = refl
    joined false b = refl

searches_of_servers_lem :
    (seen : List Text) (used : List Server)
    → IsDistinct seen
    → IsDistinct (searches_of_servers seen used)
      × ((k : Text) → member k (searches_of_servers seen used) ≡ (member k seen || any_asks k used))
unfolding searches_of_servers
searches_of_servers_lem seen [] h = (h, λ k. sym (||-false_right (member k seen)))
searches_of_servers_lem seen (s ∷ used) h =
    let (d, m) = add_searches_lem seen s.search_domains h in
    let (d', m') = searches_of_servers_lem (add_searches seen s.search_domains) used d in
    (
      d',
      λ k.
          m' k
          ∙ (ap (λ b. b || any_asks k used) (m k)
              ∙ ||-assoc (member k seen) (member k s.search_domains) (any_asks k used)),
    )

searches_from :
    (mode : Mode) (seen : List Text) (table : Table (List Server)) (result : List Text)
    → IsDistinct seen
    → searches_of_table mode seen table ≡ some result
    → IsDistinct result × ((k : Text) → member k result ≡ (member k seen || used_asks mode k table))
unfolding searches_of_table
searches_from mode seen [] result h e =
    let same : seen ≡ result = cc in
    (subst IsDistinct same h, λ k. ap (member k) (sym same) ∙ sym (||-false_right (member k seen)))
searches_from mode seen ((key, value) ∷ m) result h e =
    let (used, f, e1) = >>=-eq-some (get_used_servers value mode key) _ e in
    let (d, mem) = searches_of_servers_lem seen used h in
    let (d', mem') = searches_from mode (searches_of_servers seen used) m result d e1 in
    (
      d',
      λ k.
          mem' k
          ∙ (ap (λ b. b || used_asks mode k m) (mem k)
              ∙ (||-assoc (member k seen) (any_asks k used) (used_asks mode k m) ∙ rw f)),
    )

-- For every table without an empty entry the search domains are found. None is written twice, and a
-- domain is written exactly if a server that is used for some domain of the table has it as a search
-- domain.
pub searches_of_table_lem :
    (mode : Mode) (table : Table (List Server))
    → HasServers table
    → (result : List Text) × (searches_of_table mode [] table ≡ some result)
      × IsDistinct result
      × ((k : Text) → member k result ≡ used_asks mode k table)
searches_of_table_lem mode table h =
    let (result, e) = searches_total mode [] table h in
    let (distinct, members) = searches_from mode [] table result tt e in
    (result, e, distinct, members)
