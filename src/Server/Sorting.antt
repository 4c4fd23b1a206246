-- ===== src/Server/Sorting.antt =====
-- What GLib documents of `g_list_sort`, and a sort by insertion for which that holds.
use mathlib.Core.List.{Perm}
use mathlib.Core.List.Perm
use dnsconfd.Prelude.{
  ◌≡◌, refl, true, false, inl, inr, List, [], ◌∷◌, arith, All, is_nil, if◌then◌else◌, Bool-cases,
}
use dnsconfd.Prelude.Int.{ℤ, pos, ◌≤ℤ◌, ltb_ℤ}
use dnsconfd.Server.{Server}
use dnsconfd.Server.Table.{Sort}

abbrev pub Comparison : Type 0
Comparison = Server → Server → ℤ

-- Each member is in the relation with all behind it.
abbrev pub SortedBy : (Server → Server → Type 0) → List Server → Type 0
SortedBy R [] = Unit
SortedBy R (s ∷ l) = All (R s) l × SortedBy R l

abbrev pub NotAfter : Comparison → Server → Server → Type 0
NotAfter cmp a b = cmp a b ≤ℤ pos 0

-- The comparison orders the servers with a property: any two can be put in order, and the order is
-- transitive.
pub record IsOrderOn (cmp : Comparison) (P : Server → Type 0) : Type 0 where
  pub total : (a b : Server) → P a → P b → ltb_ℤ (pos 0) (cmp a b) ≡ true → NotAfter cmp b a
  pub trans :
      (a b c : Server) → P a → P b → P c → NotAfter cmp a b → NotAfter cmp b c → NotAfter cmp a c

pub record SortLaws (sort : Sort) : Type 1 where
  -- Nothing is lost and nothing is made up.
  pub sort_perm : (cmp : Comparison) (l : List Server) → Perm (sort cmp l) l
  -- The result is in order, where the comparison is an order on the members.
  pub sort_sorted :
      (cmp : Comparison) (P : Server → Type 0) (l : List Server)
      → IsOrderOn cmp P
      → All P l
      → SortedBy (NotAfter cmp) (sort cmp l)

insert_sorted : Comparison → Server → List Server → List Server
insert_sorted cmp a [] = a ∷ []
insert_sorted cmp a (b ∷ l) =
    if ltb_ℤ (pos 0) (cmp a b) then b ∷ insert_sorted cmp a l else a ∷ b ∷ l

unfoldable pub insertion_sort : Sort
unfolding insert_sorted
insertion_sort cmp [] = []
insertion_sort cmp (s ∷ l) = insert_sorted cmp s (insertion_sort cmp l)

insert_sorted-perm :
    (cmp : Comparison) (a : Server) (l : List Server) → Perm (insert_sorted cmp a l) (a ∷ l)
unfolding insert_sorted
insert_sorted-perm cmp a [] = Perm.refl (a ∷ [])
insert_sorted-perm cmp a (b ∷ l) = elim (Bool-cases (ltb_ℤ (pos 0) (cmp a b))) [
  | inl later ↦ rw later (Perm.trans (Perm.cons b (insert_sorted-perm cmp a l)) (Perm.swap a b l))
  | inr here ↦ rw here (Perm.refl (a ∷ b ∷ l))
]

insertion_sort-perm : (cmp : Comparison) (l : List Server) → Perm (insertion_sort cmp l) l
unfolding insertion_sort
insertion_sort-perm cmp [] = Perm.refl []
insertion_sort-perm cmp (s ∷ l) =
    Perm.trans (insert_sorted-perm cmp s (insertion_sort cmp l))
      (Perm.cons s (insertion_sort-perm cmp l))

insert_sorted-All :
    (cmp : Comparison) (Q : Server → Type 0) (a : Server) (l : List Server)
    → Q a
    → All Q l
    → All Q (insert_sorted cmp a l)
unfolding insert_sorted
insert_sorted-All cmp Q a [] q h = (q, tt)
insert_sorted-All cmp Q a (b ∷ l) q h = elim (Bool-cases (ltb_ℤ (pos 0) (cmp a b))) [
  | inl later ↦ rw later (h.0, insert_sorted-All cmp Q a l q h.1)
  | inr here ↦ rw here (q, h)
]

insertion_sort-All :
    (cmp : Comparison) (Q : Server → Type 0) (l : List Server)
    → All Q l
    → All Q (insertion_sort cmp l)
unfolding insertion_sort
insertion_sort-All cmp Q [] h = tt
insertion_sort-All cmp Q (s ∷ l) h =
    insert_sorted-All cmp Q s (insertion_sort cmp l) h.0 (insertion_sort-All cmp Q l h.1)

module _ (cmp : Comparison) (P : Server → Type 0) (order : IsOrderOn cmp P) where
  below-All :
      (a b : Server) (l : List Server)
      → P a
      → P b
      → All P l
      → NotAfter cmp a b
      → All (NotAfter cmp b) l
      → All (NotAfter cmp a) l
  below-All a b [] pa pb pl h below = tt
  below-All a b (c ∷ l) pa pb pl h below =
      (order.trans a b c pa pb pl.0 h below.0, below-All a b l pa pb pl.1 h below.1)

  not_later : (a b : Server) → ltb_ℤ (pos 0) (cmp a b) ≡ false → NotAfter cmp a b
  not_later a b h = ground arith

  insert_sorted-SortedBy :
      (a : Server) (l : List Server)
      → P a
      → All P l
      → SortedBy (NotAfter cmp) l
      → SortedBy (NotAfter cmp) (insert_sorted cmp a l)
  unfolding insert_sorted
  insert_sorted-SortedBy a [] pa pl s = (tt, tt)
  insert_sorted-SortedBy a (b ∷ l) pa pl s = elim (Bool-cases (ltb_ℤ (pos 0) (cmp a b))) [
    | inl later ↦ rw later (
      insert_sorted-All cmp (NotAfter cmp b) a l (order.total a b pa pl.0 later) s.0,
      insert_sorted-SortedBy a l pa pl.1 s.1,
    )
    | inr here ↦
        let first = not_later a b here in
        rw here ((first, below-All a b l pa pl.0 pl.1 first s.0), s)
  ]

  insertion_sort-SortedBy :
      (l : List Server) → All P l → SortedBy (NotAfter cmp) (insertion_sort cmp l)
  unfolding insertion_sort
  insertion_sort-SortedBy [] h = tt
  insertion_sort-SortedBy (s ∷ l) h =
      insert_sorted-SortedBy s (insertion_sort cmp l) h.0 (insertion_sort-All cmp P l h.1)
        (insertion_sort-SortedBy l h.1)

pub insertion_sort-SortLaws : SortLaws insertion_sort
insertion_sort-SortLaws = record {
  sort_perm = insertion_sort-perm;
  sort_sorted = λ cmp P l order h. insertion_sort-SortedBy cmp P order l h;
}

-- A permutation of a list with members has members.
pub sort_not_nil :
    (sort : Sort)
    → SortLaws sort
    → (cmp : Comparison) (l : List Server) → is_nil l ≡ false
    → is_nil (sort cmp l) ≡ false
sort_not_nil sort laws cmp l h = go (sort cmp l) l (laws.sort_perm cmp l) h
  where
    go : (m l : List Server) → Perm m l → is_nil l ≡ false → is_nil m ≡ false
    go [] [] p h = h
    go [] (s ∷ l) p h = cc (Perm.nil-eq p)
    go (s ∷ m) l p h = refl
