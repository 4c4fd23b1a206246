-- ===== src/Unbound/Select/Ranks.antt =====
-- The servers that rank as high as all others, as `get_used_servers` of src/dns_managers/unbound_manager.c
-- chooses them.
use mathlib.Core.List.{reverse, Perm, Permᴰ}
use mathlib.Core.Bool.{Bool-set}
use mathlib.Core.Logic.{∥∥₁_elim}
use dnsconfd.Prelude.{
  ◌≡◌, refl, sym, ap, ◌∙◌, Bool, true, false, not, ◌&&◌, ◌||◌, some, List, [], ◌∷◌, Text, arith,
  All, keep, ◌==◌, ltb, leb, is_nil, &&-true,
}
use dnsconfd.Prelude.Int.{pos_part, neg_part, ltb_ℤ, eqb_ℤ}
use dnsconfd.Config.{Mode}
use dnsconfd.Server.{Server, protocol_number}
use dnsconfd.Server.Order.{Ranks}
use dnsconfd.Unbound.Select.{is_skipped, get_used_servers}
use dnsconfd.Unbound.Select.Laws.{same_class, InOrder, is_chosen, get_used_servers-keep, Ranks-refl}

-- The intended order as a test: no server with a lower priority, then a lower protocol, then without
-- DNSSEC ranks as high as the other.
abbrev pub ranks : Server → Server → Bool
ranks a b =
    ltb_ℤ b.priority a.priority
    || (eqb_ℤ a.priority b.priority
        && (ltb (protocol_number b.protocol) (protocol_number a.protocol)
            || (protocol_number a.protocol == protocol_number b.protocol && leb b.dnssec a.dnssec)))

abbrev every : (Server → Bool) → List Server → Bool
every p [] = true
every p (s ∷ l) = p s && every p l

-- The server ranks as high as every server of the list, and the mode lets it answer.
abbrev pub is_best : Mode → Text → List Server → Server → Bool
is_best mode domain l s = every (ranks s) l && not (is_skipped mode domain s)

abbrev pub is_small : Server → Bool
is_small s = ltb (pos_part s.priority) 0x4000_0000 && leb (neg_part s.priority) 0x3fff_ffff

pub ranks-Ranks : (a b : Server) → ranks a b ≡ true → Ranks a b
ranks-Ranks a b h = ground arith

Ranks-ranks : (a b : Server) → Ranks a b → ranks a b ≡ true
Ranks-ranks a b h = ground arith

pub Ranks-trans : (a b c : Server) → Ranks a b → Ranks b c → Ranks a c
Ranks-trans a b c h k = ground arith

same_class-both : (a b : Server) → Ranks a b → same_class a b ≡ ranks b a
same_class-both a b h = ground arith

pub every-All :
    (p : Server → Bool) (P : Server → Type 0)
    → ((s : Server) → p s ≡ true → P s)
    → (l : List Server) → every p l ≡ true
    → All P l
every-All p P f [] h = tt
every-All p P f (s ∷ l) h = let (x, y) = &&-true (p s) (every p l) h in (f s x, every-All p P f l y)

pub All-every :
    (p : Server → Bool) (P : Server → Type 0)
    → ((s : Server) → P s → p s ≡ true)
    → (l : List Server) → All P l
    → every p l ≡ true
All-every p P f [] h = refl
All-every p P f (s ∷ l) h = rw (f s h.0, All-every p P f l h.1)

pub every-Perm : (p : Server → Bool) (l m : List Server) → Perm l m → every p l ≡ every p m
every-Perm p l m h = ∥∥₁_elim h (Bool-set (every p l) (every p m)) go
  where
    swapped : (a b c : Bool) → (a && (b && c)) ≡ (b && (a && c))
    swapped a b c = ground arith

    go : {l m : List Server} → Permᴰ l m → every p l ≡ every p m
    go Permᴰ.nil = refl
    go (Permᴰ.cons e d) = rw (ap p e, go d)
    go (Permᴰ.swap {a = a} {b = b} {l = l} e f) =
        rw (ap p (sym e), ap p (sym f)) (swapped (p a) (p b) (every p l))
    go (Permᴰ.trans d d') = go d ∙ go d'

keep-agree : (p q : Server → Bool) (l : List Server) → All (λ s. p s ≡ q s) l → keep p l ≡ keep q l
keep-agree p q [] h = refl
keep-agree p q (s ∷ l) h = rw (h.0, keep-agree p q l h.1)

-- In a list in order, to be of the class of the first server is to rank as high as all.
same_class-every :
    (first s : Server) (rest : List Server)
    → All (Ranks first) rest
    → Ranks first s
    → same_class first s ≡ every (ranks s) (first ∷ rest)
same_class-every first s rest below h = same_class-both first s h ∙ go rest below
  where
    and_absorb : (a b c : Bool) → a ≡ (a && c) → (a ≡ true → b ≡ true) → a ≡ (a && (b && c))
    and_absorb a b c e f = ground arith

    go :
        (m : List Server)
        → All (Ranks first) m
        → ranks s first ≡ (ranks s first && every (ranks s) m)
    go [] h = ground arith
    go (x ∷ m) h =
        and_absorb (ranks s first) (ranks s x) (every (ranks s) m) (go m h.1)
          (λ e. Ranks-ranks s x (Ranks-trans s first x (ranks-Ranks s first e) h.0))

chosen-best :
    (mode : Mode) (domain : Text) (first : Server) (rest m : List Server)
    → All (Ranks first) rest
    → All (Ranks first) m
    → All (λ s. is_chosen mode domain first s ≡ is_best mode domain (first ∷ rest) s) m
chosen-best mode domain first rest [] below h = tt
chosen-best mode domain first rest (s ∷ m) below h = (
  ap (λ b. b && not (is_skipped mode domain s)) (same_class-every first s rest below h.0),
  chosen-best mode domain first rest m below h.1,
)

-- On a list that is in order, exactly the best servers are used, the last of them first.
pub used_best :
    (mode : Mode) (domain : Text) (l : List Server)
    → is_nil l ≡ false
    → InOrder l
    → get_used_servers l mode domain ≡ some (reverse (keep (is_best mode domain l) l))
used_best mode domain [] h o = cc
used_best mode domain (first ∷ rest) h o =
    get_used_servers-keep mode domain first rest o
    ∙ ap (λ k. some (reverse k))
        (keep-agree (is_chosen mode domain first) (is_best mode domain (first ∷ rest))
          (first ∷ rest)
          (chosen-best mode domain first rest (first ∷ rest) o.0 (Ranks-refl first, o.0)))
