-- ===== src/HashTable.antt =====
-- The hash tables of the program, with text keys: GLib's `GHashTable` as a list of its entries. A table
-- is iterated in the order of the list; GLib promises no order, so the theorems about a loop over a
-- table are about every list of entries.
use dnsconfd.Prelude.{
  ◌≡◌, refl, subst, Bool, Option, none, some, List, [], ◌∷◌, Text, arith, text_eq, text_eq_iff,
  if◌then◌else◌, Bool-cases, inl, inr, is_some,
}

abbrev pub Table {ℓ} : Type ℓ → Type ℓ
Table V = List (Text × V)

module _ {ℓ} {V : Type ℓ} where
  unfoldable pub lookup : Text → Table V → Option V
  lookup k [] = none
  lookup k ((j, v) ∷ m) = if text_eq j k then some v else lookup k m

  -- A key that is there gets the new value.
  unfoldable pub insert : Text → V → Table V → Table V
  insert k v [] = (k, v) ∷ []
  insert k v ((j, w) ∷ m) = if text_eq j k then (j, v) ∷ m else (j, w) ∷ insert k v m

  unfoldable pub contains : Text → Table V → Bool
  unfolding lookup
  contains k m = is_some (lookup k m)

  -- No key stands in two entries.
  abbrev pub HasDistinctKeys : Table V → Type ℓ
  HasDistinctKeys [] = Unit
  HasDistinctKeys ((k, v) ∷ m) = (lookup k m ≡ none) × HasDistinctKeys m

  pub lookup-insert :
      (k j : Text) (v : V) (m : Table V)
      → lookup j (insert k v m) ≡ (if text_eq k j then some v else lookup j m)
  unfolding lookup insert
  lookup-insert k j v [] = refl
  lookup-insert k j v ((i, w) ∷ m) =
      ground (arith, text_eq_iff k j, text_eq_iff i k, text_eq_iff i j, lookup-insert k j v m)

  pub insert-HasDistinctKeys :
      (k : Text) (v : V) (m : Table V) → HasDistinctKeys m → HasDistinctKeys (insert k v m)
  unfolding lookup insert
  insert-HasDistinctKeys k v [] h = (refl, tt)
  insert-HasDistinctKeys k v ((i, w) ∷ m) h = ground (
    arith,
    text_eq_iff i k,
    text_eq_iff k i,
    lookup-insert k i v m,
    insert-HasDistinctKeys k v m h.1,
  )

  -- The values of a table all have a property.
  abbrev pub AllValues {κ} : (V → Type κ) → Table V → Type κ
  AllValues P [] = Unit
  AllValues P ((k, v) ∷ m) = P v × AllValues P m

  pub insert-AllValues {κ} :
      (P : V → Type κ) (k : Text) (v : V) (m : Table V)
      → P v
      → AllValues P m
      → AllValues P (insert k v m)
  unfolding insert
  insert-AllValues P k v [] p h = (p, tt)
  insert-AllValues P k v ((i, w) ∷ m) p h = elim (Bool-cases (text_eq i k)) [
    | inl e ↦ rw e (p, h.1)
    | inr e ↦ rw e (h.0, insert-AllValues P k v m p h.1)
  ]

  pub lookup-AllValues {κ} :
      (P : V → Type κ) (k : Text) (m : Table V) (v : V) → AllValues P m → lookup k m ≡ some v → P v
  unfolding lookup
  lookup-AllValues P k [] v h e = cc
  lookup-AllValues P k ((i, w) ∷ m) v h e = elim (Bool-cases (text_eq i k)) [
    | inl t ↦ subst P (ground arith) h.0
    | inr t ↦ lookup-AllValues P k m v h.1 (ground arith)
  ]

-- Every value replaced by its image, the keys kept.
module _ {ℓ κ} {V : Type ℓ} {W : Type κ} (f : V → W) where
  unfoldable pub map_values : Table V → Table W
  map_values [] = []
  map_values ((k, v) ∷ m) = (k, f v) ∷ map_values m

  abbrev pub map_option : Option V → Option W
  map_option none = none
  map_option (some v) = some (f v)

  pub lookup-map_values :
      (k : Text) (m : Table V) → lookup k (map_values m) ≡ map_option (lookup k m)
  unfolding lookup map_values
  lookup-map_values k [] = refl
  lookup-map_values k ((i, v) ∷ m) = elim (Bool-cases (text_eq i k)) [
    | inl e ↦ rw e
    | inr e ↦ rw e (lookup-map_values k m)
  ]

  pub map_values-HasDistinctKeys :
      (m : Table V) → HasDistinctKeys m → HasDistinctKeys (map_values m)
  unfolding map_values
  map_values-HasDistinctKeys [] h = tt
  map_values-HasDistinctKeys ((k, v) ∷ m) h =
      (rw (lookup-map_values k m, h.0), map_values-HasDistinctKeys m h.1)
