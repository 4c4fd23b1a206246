-- ===== src/Examples/Addresses.antt =====
-- A conversion of addresses for which the documentation of `inet_pton` and `inet_ntop` holds: a mark
-- for the family, and one character for each byte.
use dnsconfd.Prelude.{
  ℕ, ◌+◌, ◌-◌, ◌<◌, ◌≤◌, ◌≡◌, refl, ap, ◌∙◌, Bool, true, false, ◌&&◌, Option, none, some, [], ◌∷◌,
  Text, arith, length, take, All, if◌then◌else◌, ◌==◌, leb, ltb, Bool-cases, inl, inr, &&-true,
  zero, suc, subst,
}
use dnsconfd.Ip.{Inet, InetLaws}

unfoldable pub shifted : Text → Text
shifted [] = []
shifted (b ∷ a) = (b + 48) ∷ shifted a

unfoldable pub unshifted : Text → Text
unshifted [] = []
unshifted (c ∷ t) = (c - 48) ∷ unshifted t

unfoldable pub are_shifted : Text → Bool
are_shifted [] = true
are_shifted (c ∷ t) = (leb 48 c && ltb c 304) && are_shifted t

unfoldable pub encode : ℕ → ℕ → Text → Text
unfolding shifted
encode mark size a = mark ∷ take size (shifted a)

unfoldable pub decode : ℕ → ℕ → Text → Option Text
unfolding unshifted are_shifted
decode mark size [] = none
decode mark size (c ∷ t) =
    if (c == mark && length t == size) && are_shifted t then some (unshifted t) else none

abbrev pub inet_toy : Inet
inet_toy = record {
  pton4 = decode 4 4;
  pton6 = decode 6 16;
  ntop4 = encode 4 4;
  ntop6 = encode 6 16;
}

unshifted-IsBytes :
    (t : Text)
    → are_shifted t ≡ true
    → (length (unshifted t) ≡ length t) × All (λ b. b < 256) (unshifted t)
unfolding are_shifted unshifted
unshifted-IsBytes [] h = (refl, tt)
unshifted-IsBytes (c ∷ t) h =
    let (x, y) = &&-true (leb 48 c && ltb c 304) (are_shifted t) h in
    let (l, b) = unshifted-IsBytes t y in (omega (arith, l), (ground (arith, x), b))

decode_size :
    (mark size : ℕ) (t a : Text)
    → decode mark size t ≡ some a
    → (length a ≡ size) × All (λ b. b < 256) a
unfolding decode
decode_size mark size [] a h = cc
decode_size mark size (c ∷ t) a h =
    elim (Bool-cases ((c == mark && length t == size) && are_shifted t)) [
      | inl e ↦
          let (x, y) = &&-true (c == mark && length t == size) (are_shifted t) e in
          let (l, b) = unshifted-IsBytes t y in
          let same : unshifted t ≡ a = let r : some (unshifted t) ≡ some a = rw e at h in cc in
          subst (λ z. (length z ≡ size) × All (λ b. b < 256) z) same (ground (arith, l, x), b)
      | inr e ↦ cc (rw e at h)
    ]

shifted_lem :
    (a : Text)
    → All (λ b. b < 256) a
    → (are_shifted (shifted a) ≡ true)
      × (unshifted (shifted a) ≡ a)
      × (length (shifted a) ≡ length a)
unfolding are_shifted shifted unshifted
shifted_lem [] h = (refl, refl, refl)
shifted_lem (b ∷ a) h =
    let (x, y, z) = shifted_lem a h.1 in
    (rw x (ground arith), rw y (ground arith), omega (arith, z))

take_whole : (n : ℕ) (t : Text) → length t ≡ n → take n t ≡ t
take_whole zero [] h = refl
take_whole zero (x ∷ t) h = absurd (omega arith)
take_whole (suc n) [] h = refl
take_whole (suc n) (x ∷ t) h = ap (λ r. x ∷ r) (take_whole n t (omega arith))

decode-encode :
    (mark size : ℕ) (a : Text)
    → length a ≡ size
    → All (λ b. b < 256) a
    → decode mark size (encode mark size a) ≡ some a
unfolding decode encode
decode-encode mark size a l h =
    let (x, y, z) = shifted_lem a h in
    rw (take_whole size (shifted a) (z ∙ l), y) (ground (arith, x, z, l))

take-length : (n : ℕ) (t : Text) → length (take n t) ≤ n
take-length zero t = omega arith
take-length (suc n) [] = omega arith
take-length (suc n) (x ∷ t) = omega (arith, take-length n t)

no_slash : (n : ℕ) (a : Text) → All (λ c. (c == b'/') ≡ false) (take n (shifted a))
unfolding shifted
no_slash zero a = tt
no_slash (suc n) [] = tt
no_slash (suc n) (b ∷ a) = (ground arith, no_slash n a)

pub inet_toy-InetLaws : InetLaws inet_toy
unfolding encode decode
inet_toy-InetLaws = record {
  pton4_size = decode_size 4 4;
  pton6_size = decode_size 6 16;
  pton4-ntop4 = decode-encode 4 4;
  pton6-ntop6 = decode-encode 6 16;
  pton4-ntop6 = λ a. refl;
  ntop4_fits = λ a. omega (arith, take-length 4 (shifted a));
  ntop6_fits = λ a. omega (arith, take-length 16 (shifted a));
  ntop4_no_slash = λ a. (refl, no_slash 4 a);
  ntop6_no_slash = λ a. (refl, no_slash 16 a);
}
