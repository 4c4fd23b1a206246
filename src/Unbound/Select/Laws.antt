-- ===== src/Unbound/Select/Laws.antt =====
-- `get_used_servers` of src/dns_managers/unbound_manager.c on a list that is in order.
use mathlib.Core.List.{reverse, reverse-cons, append_assoc, append-nil}
use dnsconfd.Prelude.{
  ◌≡◌, refl, sym, ◌∙◌, Bool, false, inl, inr, not, ◌&&◌, some, List, [], ◌∷◌, ◌++◌, Text, arith,
  All, keep, Bool-cases, ◌==◌,
}
use dnsconfd.Prelude.Int.{eqb_ℤ}
use dnsconfd.Config.{Mode}
use dnsconfd.Server.{Server, protocol_number}
use dnsconfd.Server.Order.{Ranks}
use dnsconfd.Unbound.Select.{is_skipped, falls_below, used_loop, get_used_servers}

-- The priority, the protocol and the DNSSEC flag agree.
abbrev pub same_class : Server → Server → Bool
same_class a b =
    eqb_ℤ a.priority b.priority
    && (protocol_number a.protocol == protocol_number b.protocol && a.dnssec == b.dnssec)

-- Each server ranks at least as high as all behind it.
abbrev pub InOrder : List Server → Type 0
InOrder [] = Unit
InOrder (s ∷ l) = All (Ranks s) l × InOrder l

pub Ranks-refl : (a : Server) → Ranks a a
Ranks-refl a = omega arith

falls_below-same_class : (a b : Server) → Ranks a b → falls_below a b ≡ not (same_class a b)
falls_below-same_class a b r = ground arith

same_class-below :
    (a b c : Server)
    → Ranks a b
    → Ranks b c
    → Ranks a c
    → same_class a b ≡ false
    → same_class a c ≡ false
same_class-below a b c r s t h = ground arith

-- The servers that the loop is to keep.
abbrev pub is_chosen : Mode → Text → Server → Server → Bool
is_chosen mode domain first s = same_class first s && not (is_skipped mode domain s)

none_below :
    (mode : Mode) (domain : Text) (first s : Server) (l : List Server)
    → Ranks first s
    → same_class first s ≡ false
    → All (Ranks s) l
    → All (Ranks first) l
    → keep (is_chosen mode domain first) l ≡ []
none_below mode domain first s [] r h below ranked = refl
none_below mode domain first s (x ∷ l) r h below ranked = rw (
  same_class-below first s x r below.0 ranked.0 h,
  none_below mode domain first s l r h below.1 ranked.1,
)

used_loop-keep :
    (mode : Mode) (domain : Text) (first : Server) (used l : List Server)
    → All (Ranks first) l
    → InOrder l
    → used_loop mode domain first used l ≡ reverse (keep (is_chosen mode domain first) l) ++ used
unfolding used_loop
used_loop-keep mode domain first used [] r o = refl
used_loop-keep mode domain first used (s ∷ l) r o = elim (Bool-cases (same_class first s)) [
  | inl same ↦
      rw (falls_below-same_class first s r.0, same)
        (elim (Bool-cases (is_skipped mode domain s)) [
          | inl skip ↦ rw skip (used_loop-keep mode domain first used l r.1 o.1)
          | inr take ↦ rw take (
              used_loop-keep mode domain first (s ∷ used) l r.1 o.1
              ∙ sym (
                  rw (reverse-cons s (keep (is_chosen mode domain first) l))
                    (append_assoc (reverse (keep (is_chosen mode domain first) l)) (s ∷ []) used)))
        ])
  | inr other ↦ rw (
    falls_below-same_class first s r.0,
    other,
    none_below mode domain first s l r.0 other o.0 r.1,
  )
]

-- On a list that is in order, exactly the servers with the priority, protocol and DNSSEC flag of
-- the first one are used, without those that the mode keeps from the domain.
pub get_used_servers-keep :
    (mode : Mode) (domain : Text) (first : Server) (l : List Server)
    → InOrder (first ∷ l)
    → get_used_servers (first ∷ l) mode domain
      ≡ some (reverse (keep (is_chosen mode domain first) (first ∷ l)))
unfolding get_used_servers
get_used_servers-keep mode domain first l o = λ i. some (
    (used_loop-keep mode domain first [] (first ∷ l) (Ranks-refl first, o.0) o
        ∙ append-nil (reverse (keep (is_chosen mode domain first) (first ∷ l))))
      i)
