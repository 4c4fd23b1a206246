-- ===== src/Network/Reverse.antt =====
-- The reverse zones: their length against the caller's buffer, and their labels.
use mathlib.Core.List.{reverse, reverse-append}
use dnsconfd.Prelude.{
  ℕ, zero, suc, ◌+◌, ◌*◌, ◌/◌, ◌%◌, ◌≤◌, ◌<◌, ◌≡◌, refl, ap, inl, inr, Option, none, some, List, [],
  ◌∷◌, ◌++◌, Text, arith, length, length-append, All, take, get_or, ltb, if◌then◌else◌, codes,
  Bool-cases,
}
use dnsconfd.Ip.{Family, unspec, inet, inet6, SockAddr}
use dnsconfd.Ip.Laws.{IsAddress}
use dnsconfd.Number.{decimal, hex_digit}
use dnsconfd.Number.Decimal.{length-decimal_byte}
use dnsconfd.Network.{
  NetworkAddress, octet_labels, reverse_dns_ipv4, nibble_at, nibble_labels, reverse_dns_ipv6,
  reverse_dns_in, network_address_t_to_reverse_dns,
}

get_or-lt : (bytes : Text) (i : ℕ) → All (λ b. b < 256) bytes → get_or bytes i 0 < 256
get_or-lt [] i h = omega arith
get_or-lt (b ∷ bs) zero h = h.0
get_or-lt (b ∷ bs) (suc i) h = get_or-lt bs i h.1

length-octet_labels :
    (bytes : Text) (n : ℕ) → All (λ b. b < 256) bytes → length (octet_labels bytes n) ≤ 4 * n
unfolding octet_labels
length-octet_labels bytes zero h = omega arith
length-octet_labels bytes (suc i) h = omega (
  arith,
  length-append (decimal (get_or bytes i 0)) (b'.' ∷ octet_labels bytes i),
  length-decimal_byte (get_or bytes i 0) (get_or-lt bytes i h),
  length-octet_labels bytes i h,
)

length-nibble_labels : (bytes : Text) (n : ℕ) → length (nibble_labels bytes n) ≡ 2 * n
unfolding nibble_labels
length-nibble_labels bytes zero = omega arith
length-nibble_labels bytes (suc i) = omega (arith, length-nibble_labels bytes i)

length-reverse_dns_ipv4 :
    (a : SockAddr) (prefix : ℕ)
    → All (λ b. b < 256) a.sin_addr
    → length (reverse_dns_ipv4 a prefix) < 29
unfolding reverse_dns_ipv4
length-reverse_dns_ipv4 a prefix h = ground (
  arith,
  length-octet_labels a.sin_addr 4 h,
  length-octet_labels a.sin_addr (prefix / 8) h,
  length-append (octet_labels a.sin_addr 4) (codes "in-addr.arpa"),
  length-append (octet_labels a.sin_addr (prefix / 8)) (codes "in-addr.arpa"),
)

length-reverse_dns_ipv6 : (a : SockAddr) (prefix : ℕ) → length (reverse_dns_ipv6 a prefix) < 73
unfolding reverse_dns_ipv6
length-reverse_dns_ipv6 a prefix = ground (
  arith,
  length-nibble_labels a.sin6_addr 32,
  length-nibble_labels a.sin6_addr (prefix / 4),
  length-append (nibble_labels a.sin6_addr 32) (codes "ip6.arpa"),
  length-append (nibble_labels a.sin6_addr (prefix / 4)) (codes "ip6.arpa"),
)

-- For every address of a known family and every value of the prefix byte the conversion succeeds,
-- and its text with the terminating NUL fits the caller's buffer of 73 bytes.
pub reverse_dns_fits :
    (net : NetworkAddress)
    → IsAddress net.address
    → (zone : Text) × (network_address_t_to_reverse_dns net ≡ some zone) × (length zone + 1 ≤ 73)
unfolding network_address_t_to_reverse_dns
reverse_dns_fits net h = go net.address.family refl
  where
    go :
        (f : Family)
        → net.address.family ≡ f
        → (zone : Text) × (network_address_t_to_reverse_dns net ≡ some zone)
          × (length zone + 1 ≤ 73)
    go unspec e = absurd (h.known e)
    go inet e = (
      reverse_dns_ipv4 net.address net.prefix,
      ground arith,
      omega (arith, length-reverse_dns_ipv4 net.address net.prefix h.bytes4),
    )
    go inet6 e = (
      reverse_dns_ipv6 net.address net.prefix,
      ground arith,
      omega (arith, length-reverse_dns_ipv6 net.address net.prefix),
    )

-- Labels, each with its dot.
abbrev pub dotted : (ℕ → Text) → List ℕ → Text
dotted label [] = []
dotted label (b ∷ bs) = label b ++ (b'.' ∷ dotted label bs)

-- The hexadecimal digits of the bytes, the high one of each first.
abbrev pub nibbles : Text → List ℕ
nibbles [] = []
nibbles (b ∷ bs) = b / 16 ∷ b % 16 ∷ nibbles bs

take-suc : (n : ℕ) (xs : Text) → n < length xs → take (suc n) xs ≡ take n xs ++ (get_or xs n 0 ∷ [])
take-suc n [] h = elim h [ ]
take-suc zero (x ∷ xs) h = refl
take-suc (suc n) (x ∷ xs) h = ap (◌∷◌ x) (take-suc n xs (omega arith))

take_all : (n : ℕ) (xs : Text) → length xs ≤ n → take n xs ≡ xs
take_all zero [] h = refl
take_all zero (x ∷ xs) h = absurd (omega arith)
take_all (suc n) [] h = refl
take_all (suc n) (x ∷ xs) h = ap (◌∷◌ x) (take_all n xs (omega arith))

reverse-take-suc :
    (n : ℕ) (xs : Text)
    → n < length xs
    → reverse (take (suc n) xs) ≡ get_or xs n 0 ∷ reverse (take n xs)
reverse-take-suc n xs h = rw (take-suc n xs h) (reverse-append (take n xs) (get_or xs n 0 ∷ []))

octet_labels-dotted :
    (n : ℕ) (bytes : Text)
    → n ≤ length bytes
    → octet_labels bytes n ≡ dotted decimal (reverse (take n bytes))
unfolding octet_labels
octet_labels-dotted zero bytes h = refl
octet_labels-dotted (suc n) bytes h =
    rw (reverse-take-suc n bytes h, octet_labels-dotted n bytes (omega arith))

get_or-nibbles :
    (bytes : Text) (i : ℕ)
    → All (λ b. b < 256) bytes
    → get_or (nibbles bytes) i 0 ≡ nibble_at bytes i
unfolding nibble_at
get_or-nibbles [] i h = ground arith
get_or-nibbles (b ∷ bs) zero h = ground arith
get_or-nibbles (b ∷ bs) (suc zero) h = ground arith
get_or-nibbles (b ∷ bs) (suc (suc i)) h =
    let half : suc (suc i) / 2 ≡ suc (i / 2) = omega arith in
    let parity : suc (suc i) % 2 ≡ i % 2 = omega arith in
    rw (half, parity) (get_or-nibbles bs i h.1)

length-nibbles : (bytes : Text) → length (nibbles bytes) ≡ 2 * length bytes
length-nibbles [] = omega arith
length-nibbles (b ∷ bs) = omega (arith, length-nibbles bs)

-- The label of a nibble.
abbrev pub nibble_label : ℕ → Text
nibble_label n = hex_digit n ∷ []

nibble_labels-dotted :
    (n : ℕ) (bytes : Text)
    → All (λ b. b < 256) bytes
    → n ≤ 2 * length bytes
    → nibble_labels bytes n ≡ dotted nibble_label (reverse (take n (nibbles bytes)))
unfolding nibble_labels
nibble_labels-dotted zero bytes h k = refl
nibble_labels-dotted (suc n) bytes h k = rw (
  reverse-take-suc n (nibbles bytes) (omega (arith, length-nibbles bytes)),
  get_or-nibbles bytes n h,
  nibble_labels-dotted n bytes h (omega arith),
)

at_most_take :
    (limit n : ℕ) (xs : Text)
    → length xs ≡ limit
    → take (if ltb limit n then limit else n) xs ≡ take n xs
at_most_take limit n xs h = elim (Bool-cases (ltb limit n)) [
  | inl above ↦ rw (above, take_all limit xs (omega arith), take_all n xs (ground arith)) refl
  | inr below ↦ rw below
]

reverse_dns_ipv4_lem :
    (a : SockAddr) (prefix : ℕ)
    → length a.sin_addr ≡ 4
    → reverse_dns_ipv4 a prefix
      ≡ dotted decimal (reverse (take (prefix / 8) a.sin_addr)) ++ codes "in-addr.arpa"
unfolding reverse_dns_ipv4
reverse_dns_ipv4_lem a prefix h = rw (
  octet_labels-dotted (if ltb 4 (prefix / 8) then 4 else prefix / 8) a.sin_addr (ground arith),
  at_most_take 4 (prefix / 8) a.sin_addr h,
)

reverse_dns_ipv6_lem :
    (a : SockAddr) (prefix : ℕ)
    → length a.sin6_addr ≡ 16
    → All (λ b. b < 256) a.sin6_addr
    → reverse_dns_ipv6 a prefix
      ≡ dotted nibble_label (reverse (take (prefix / 4) (nibbles a.sin6_addr))) ++ codes "ip6.arpa"
unfolding reverse_dns_ipv6
reverse_dns_ipv6_lem a prefix h b = rw (
  nibble_labels-dotted (if ltb 32 (prefix / 4) then 32 else prefix / 4) a.sin6_addr b
      (ground arith),
  at_most_take 32 (prefix / 4) (nibbles a.sin6_addr) (omega (arith, length-nibbles a.sin6_addr)),
)

-- The name that RFC 1035 and RFC 3596 give the zone: the whole octets, or nibbles, of the prefix,
-- last first, below the domain of the family.
abbrev pub reverse_zone : Family → SockAddr → ℕ → Option Text
reverse_zone inet a prefix =
    some (dotted decimal (reverse (take (prefix / 8) a.sin_addr)) ++ codes "in-addr.arpa")
reverse_zone inet6 a prefix =
    some
      (dotted nibble_label (reverse (take (prefix / 4) (nibbles a.sin6_addr))) ++ codes "ip6.arpa")
reverse_zone unspec a prefix = none

-- For every address with 4 and 16 bytes, of any family, the program computes exactly the name that RFC
-- 1035 and RFC 3596 give the reverse zone, or fails if the family has none.
pub to_reverse_dns-reverse_zone :
    (net : NetworkAddress)
    → length net.address.sin_addr ≡ 4
    → length net.address.sin6_addr ≡ 16
    → All (λ b. b < 256) net.address.sin6_addr
    → network_address_t_to_reverse_dns net ≡ reverse_zone net.address.family net.address net.prefix
unfolding network_address_t_to_reverse_dns
to_reverse_dns-reverse_zone net h4 h6 b6 = go net.address.family
  where
    go :
        (f : Family)
        → reverse_dns_in f net.address net.prefix ≡ reverse_zone f net.address net.prefix
    go unspec = refl
    go inet = ap some (reverse_dns_ipv4_lem net.address net.prefix h4)
    go inet6 = ap some (reverse_dns_ipv6_lem net.address net.prefix h6 b6)
