-- ===== src/Number/Decimal.antt =====
-- `%d` and `strtol` together.
use native.Mathlib.Nat.{pow-suc}
use mathlib.Core.List.{append_assoc, append-nil}
use dnsconfd.Prelude.{
  ℕ, zero, suc, ◌+◌, ◌*◌, ◌/◌, ◌%◌, ◌^◌, ◌≤◌, ◌<◌, ◌≡◌, refl, ◌∙◌, true, inl, inr, [], ◌∷◌, ◌++◌,
  Text, arith, length, length-append, All, All-append, Bool-cases, ltb,
}
use dnsconfd.Prelude.Int.{pos}
use dnsconfd.Number.{is_digit, scan_digits, strtol, decimal, decimal_digits, long_max}

-- One more digit behind the number `q`.
scan_last :
    (q d n : ℕ) (rest : Text)
    → d < 10
    → n ≡ q * 10 + d
    → scan_digits q ((b'0' + d) ∷ rest) ≡ scan_digits n rest
unfolding scan_digits
scan_last q d n rest h e = ground arith

scan-decimal_digits :
    (f n : ℕ) (rest : Text)
    → n < 10 ^ suc f
    → scan_digits 0 (decimal_digits (suc f) n ++ rest) ≡ scan_digits n rest
unfolding decimal_digits
scan-decimal_digits zero n rest h = rw (single) (scan_last 0 n n rest (omega arith) (omega arith))
  where
    single : ltb n 10 ≡ true
    single = ground arith
scan-decimal_digits (suc g) n rest h = elim (Bool-cases (ltb n 10)) [
  | inl one ↦ rw one (scan_last 0 n n rest (ground arith) (omega arith))
  | inr more ↦
      rw (more, append_assoc)
        (scan-decimal_digits g (n / 10) ((b'0' + n % 10) ∷ rest) (omega (arith, pow-suc 10 (suc g)))
          ∙ scan_last (n / 10) (n % 10) n rest (omega arith) (omega arith))
]

length-decimal_digits : (f n : ℕ) → length (decimal_digits f n) ≤ f
unfolding decimal_digits
length-decimal_digits zero n = omega arith
length-decimal_digits (suc f) n = ground (
  arith,
  length-decimal_digits f (n / 10),
  length-append (decimal_digits f (n / 10)) ((b'0' + n % 10) ∷ []),
)

-- Two digits at most below 100, three at most below 1000.
pub length-decimal_byte : (n : ℕ) → n < 256 → length (decimal n) ≤ 3
unfolding decimal
length-decimal_byte n h = ground arith

All-digits : (f n : ℕ) → n < 10 ^ f → All (λ c. is_digit c ≡ true) (decimal_digits f n)
unfolding decimal_digits
All-digits zero n h = tt
All-digits (suc f) n h = elim (Bool-cases (ltb n 10)) [
  | inl one ↦ rw one (ground arith)
  | inr more ↦ rw more (
      All-append _ (decimal_digits f (n / 10)) _
        (All-digits f (n / 10) (omega (arith, pow-suc 10 f))) (ground arith))
]

pub decimal-All : (n : ℕ) → n < 10 ^ 10 → All (λ c. is_digit c ≡ true) (decimal n)
unfolding decimal
decimal-All = All-digits 10

digits-ne-nil : (f n : ℕ) → (c : ℕ) × (s : Text) × (decimal_digits (suc f) n ≡ c ∷ s)
unfolding decimal_digits
digits-ne-nil f n = elim (Bool-cases (ltb n 10)) [
  | inl one ↦ (b'0' + n, [], rw one)
  | inr more ↦ rw more (snoc (decimal_digits f (n / 10)) (b'0' + n % 10))
]
  where
    snoc : (xs : Text) (x : ℕ) → (c : ℕ) × (s : Text) × (xs ++ x ∷ [] ≡ c ∷ s)
    snoc [] x = (x, [], refl)
    snoc (y ∷ ys) x = (y, ys ++ x ∷ [], refl)

-- `strtol` starts at the first byte of a text that begins with a digit.
strtol_digit :
    (c : ℕ) (s : Text) (n : ℕ) (rest : Text)
    → is_digit c ≡ true
    → scan_digits 0 (c ∷ s) ≡ (n, rest)
    → n ≤ long_max
    → strtol (c ∷ s) ≡ (pos n, rest)
unfolding strtol
strtol_digit c s n rest d e h = ground arith

-- A printed number is read back whole, and the end pointer is at the end of the text.
pub strtol-decimal : (n : ℕ) → n < 10 ^ 10 → strtol (decimal n) ≡ (pos n, [])
unfolding decimal scan_digits
strtol-decimal n h =
    let (c, s, e) = digits-ne-nil 9 n in
    let shown : All (λ c. is_digit c ≡ true) (c ∷ s) = rw e at (All-digits 10 n h) in
    let read : scan_digits 0 (c ∷ s) ≡ (n, []) =
      rw e at (rw append-nil at (scan-decimal_digits 9 n [] h)) in
    rw e (strtol_digit c s n [] shown.0 read (omega arith))
