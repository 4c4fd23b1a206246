-- ===== src/Unbound/Update/Used.antt =====
-- The table of the servers that are used, the first loop of `update` in
-- src/dns_managers/unbound_manager.c, read domain by domain.
use mathlib.Core.Option.{some-injective}
use dnsconfd.Prelude.{
  ◌≡◌, refl, sym, ap, subst, ◌∙◌, inl, inr, Option, none, some, List, [], ◌∷◌, Text, text_eq,
  text_eq_sound, if◌then◌else◌, ◌>>=◌, >>=-eq-some, is_nil, Bool-cases,
}
use dnsconfd.HashTable.{Table, lookup, HasDistinctKeys, lookup-insert, insert-HasDistinctKeys}
use dnsconfd.Server.{Server, copies_lem}
use dnsconfd.Config.{Mode}
use dnsconfd.Unbound.Select.{get_used_servers}
use dnsconfd.Unbound.Update.{add_used, collect_used, used_table}

-- The servers of a domain that Unbound is given, if there are any.
abbrev pub given_servers : Text → Mode → Option (List Server) → Option (List Server)
given_servers domain mode none = none
given_servers domain mode (some l) =
    get_used_servers l mode domain >>= λ used. if is_nil used then none else some used

abbrev pub or_before : {A : Type 0} → Option A → Option A → Option A
or_before none before = before
or_before (some v) before = some v

lookup-add_used :
    (key domain : Text) (used : List Server) (result : Table (List Server))
    → lookup domain (add_used key used result) ≡ (
        if text_eq key domain
        then or_before (if is_nil used then none else some used) (lookup domain result)
        else lookup domain result)
lookup-add_used key domain [] result = elim (Bool-cases (text_eq key domain)) [
  | inl e ↦ rw e refl
  | inr e ↦ rw e refl
]
lookup-add_used key domain (s ∷ l) result =
    rw (copies_lem (s ∷ l)) (lookup-insert key domain (s ∷ l) result)

add_used-HasDistinctKeys :
    (key : Text) (used : List Server) (result : Table (List Server))
    → HasDistinctKeys result
    → HasDistinctKeys (add_used key used result)
add_used-HasDistinctKeys key [] result h = h
add_used-HasDistinctKeys key (s ∷ l) result h = insert-HasDistinctKeys key _ result h

lookup-collect_used :
    (mode : Mode) (domain : Text) (m result new : Table (List Server))
    → HasDistinctKeys m
    → collect_used mode m result ≡ some new
    → lookup domain new
      ≡ or_before (given_servers domain mode (lookup domain m)) (lookup domain result)
unfolding collect_used lookup
lookup-collect_used mode domain [] result new d h =
    ap (λ x. lookup domain x) (sym (some-injective result new h))
lookup-collect_used mode domain ((key, value) ∷ m) result new d h =
    let (used, e, k) =
      >>=-eq-some (get_used_servers value mode key)
        (λ used. collect_used mode m (add_used key used result)) h in
    lookup-collect_used mode domain m (add_used key used result) new d.1 k ∙ step used e
  where
    step :
        (used : List Server)
        → get_used_servers value mode key ≡ some used
        → or_before
            (given_servers domain mode (lookup domain m))
            (lookup domain (add_used key used result))
          ≡ or_before
              (given_servers domain mode
                (if text_eq key domain then some value else lookup domain m))
              (lookup domain result)
    step used e = elim (Bool-cases (text_eq key domain)) [
      | inl t ↦
          let same : key ≡ domain = text_eq_sound key domain t in
          let absent : lookup domain m ≡ none = subst (λ x. lookup x m ≡ none) same d.0 in
          let chosen : get_used_servers value mode domain ≡ some used =
            subst (λ x. get_used_servers value mode x ≡ some used) same e in
          rw (lookup-add_used key domain used result, t, absent, chosen) refl
      | inr t ↦ rw (lookup-add_used key domain used result, t) refl
    ]

collect_used-HasDistinctKeys :
    (mode : Mode) (m result new : Table (List Server))
    → HasDistinctKeys result
    → collect_used mode m result ≡ some new
    → HasDistinctKeys new
unfolding collect_used
collect_used-HasDistinctKeys mode [] result new d h =
    subst HasDistinctKeys (some-injective result new h) d
collect_used-HasDistinctKeys mode ((key, value) ∷ m) result new d h =
    let (used, e, k) =
      >>=-eq-some (get_used_servers value mode key)
        (λ used. collect_used mode m (add_used key used result)) h in
    collect_used-HasDistinctKeys mode m (add_used key used result) new
      (add_used-HasDistinctKeys key used result d) k

-- The table has no domain twice, and for each the servers that the mode lets be used.
pub used_table_lem :
    (mode : Mode) (m new : Table (List Server))
    → HasDistinctKeys m
    → used_table mode m ≡ some new
    → HasDistinctKeys new
      × ((domain : Text) → lookup domain new ≡ given_servers domain mode (lookup domain m))
unfolding used_table lookup
used_table_lem mode m new d h = (
  collect_used-HasDistinctKeys mode m [] new tt h,
  λ domain.
      lookup-collect_used mode domain m [] new d h
      ∙ or_none (given_servers domain mode (lookup domain m)),
)
  where
    or_none : {A : Type 0} (o : Option A) → or_before o none ≡ o
    or_none none = refl
    or_none (some v) = refl
