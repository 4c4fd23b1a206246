-- ===== src/Number.antt =====
-- The number formats of the C library that the program uses: `strtol` in base 10, `%d` of a number
-- that is not negative, and `%x` of a hexadecimal digit.
pub mod Decimal
use dnsconfd.Prelude.{
  ℕ, zero, suc, ◌+◌, ◌-◌, ◌*◌, ◌/◌, ◌%◌, ◌≡◌, refl, Bool, true, false, ◌&&◌, ◌||◌, List, [], ◌∷◌,
  ◌++◌, Text, if◌then◌else◌, leb, ltb, ◌==◌, codes,
}
use dnsconfd.Prelude.Int.{ℤ, pos, negsuc}

abbrev pub is_digit : ℕ → Bool
is_digit c = leb b'0' c && leb c b'9'

abbrev is_space : ℕ → Bool
is_space c = c == 32 || leb 9 c && leb c 13

-- The digits at the front of a text, read behind `n`: their value and what follows them.
unfoldable pub scan_digits : ℕ → Text → ℕ × Text
scan_digits n [] = (n, [])
scan_digits n (c ∷ s) =
    let r = scan_digits (n * 10 + (c - b'0')) s in if is_digit c then r else (n, c ∷ s)

skip_spaces : Text → Text
skip_spaces [] = []
skip_spaces (c ∷ s) = if is_space c then skip_spaces s else c ∷ s

abbrev pub long_max : ℕ
long_max = 0x7fff_ffff_ffff_ffff

-- LONG_MAX or LONG_MIN where the value does not fit; `n` stands for `-n` if the sign is set.
abbrev clamp_long : Bool → ℕ → ℤ
clamp_long minus n =
    if minus
    then if n == 0 then pos 0 else if ltb long_max n then negsuc long_max else negsuc (n - 1)
    else if ltb long_max n
    then pos long_max
    else pos n

-- With no digit the value is 0 and the end pointer is the start of the text.
convert : Text → Bool → Text → ℤ × Text
unfolding scan_digits
convert start minus [] = (pos 0, start)
convert start minus (c ∷ s) =
    let (n, rest) = scan_digits 0 (c ∷ s) in
    if is_digit c then (clamp_long minus n, rest) else (pos 0, start)

after_spaces : Text → Text → ℤ × Text
unfolding convert
after_spaces start [] = (pos 0, start)
after_spaces start (c ∷ s) =
    if c == b'-'
    then convert start true s
    else if c == b'+'
    then convert start false s
    else convert start false (c ∷ s)

-- `strtol(text, &end, 10)`: the value and the text at `end`.
unfoldable pub strtol : Text → ℤ × Text
unfolding skip_spaces after_spaces
strtol text = after_spaces text (skip_spaces text)

unfoldable pub decimal_digits : ℕ → ℕ → Text
decimal_digits zero n = []
decimal_digits (suc f) n =
    let more = decimal_digits f (n / 10) ++ ((b'0' + n % 10) ∷ []) in
    if ltb n 10 then (b'0' + n) ∷ [] else more

-- `%d` and `%u`: ten digits hold every 32-bit value.
unfoldable pub decimal : ℕ → Text
unfolding decimal_digits
decimal n = decimal_digits 10 n

-- `%x` of a value below 16.
unfoldable pub hex_digit : ℕ → ℕ
hex_digit n = if ltb n 10 then b'0' + n else b'a' + (n - 10)

decimal_4096 : decimal 4096 ≡ codes "4096"
unfolding decimal
decimal_4096 = refl

strtol_signed : strtol (codes "  -12/x") ≡ (negsuc 11, codes "/x")
unfolding strtol
strtol_signed = refl

strtol_empty : strtol (codes " +") ≡ (pos 0, codes " +")
unfolding strtol
strtol_empty = refl
