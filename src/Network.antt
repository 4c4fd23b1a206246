-- ===== src/Network.antt =====
-- src/types/network_address.c: networks in CIDR notation and the names of their reverse zones, and
-- `network_address_to_string` of src/cli_commands/cli_update.c, which prints them.
pub mod Parse
pub mod Reverse
use dnsconfd.Prelude.{
  ℕ, zero, suc, ◌+◌, ◌-◌, ◌/◌, ◌%◌, ◌≡◌, Bool, true, false, not, ◌||◌, ◌&&◌, Option, none, some,
  List, [], ◌∷◌, ◌++◌, Text, if◌then◌else◌, ltb, leb, ◌==◌, codes, length, get_or, is_nil, ◌>>=◌,
}
use dnsconfd.Prelude.Int.{ℤ, pos, negsuc, ltb_ℤ, pos_part}
use dnsconfd.Ip.{Family, unspec, inet, inet6, SockAddr, Inet, parse_ip_str, ip_to_str, family_eq}
use dnsconfd.Number.{strtol, decimal, hex_digit}

pub record NetworkAddress : Type 0 where
  pub address : SockAddr
  pub prefix : ℕ

-- `strchr(text, '/')`: what stands before the first slash and what stands behind it.
unfoldable pub split_slash : Text → Option (Text × Text)
split_slash [] = none
split_slash (c ∷ s) =
    let rest = split_slash s in
    if c == b'/' then some ([], s) else rest >>= λ p. some (c ∷ p.0, p.1)

abbrev pub inet6_addrstrlen : ℕ
inet6_addrstrlen = 46

-- The checks on the address once it is parsed.
abbrev with_prefix : SockAddr → ℕ → Option NetworkAddress
with_prefix address prefix =
    if family_eq address.family inet && ltb 32 prefix
    then none
    else some (record { address = address; prefix = prefix })

abbrev from_parts : Inet → SockAddr → Text → ℤ → Text → Option NetworkAddress
from_parts net memory ip_part raw_prefix end =
    if not (is_nil end) || ltb_ℤ raw_prefix (pos 0) || ltb_ℤ (pos 128) raw_prefix
    then none
    else parse_ip_str net ip_part memory >>= λ a. with_prefix a (pos_part raw_prefix)

-- `memory` is the address part of the structure before the call; `none` is the return of -1.
unfoldable pub network_address_t_from_string : Inet → SockAddr → Text → Option NetworkAddress
network_address_t_from_string net memory address_string = split_slash address_string >>= λ p.
    if leb inet6_addrstrlen (length p.0)
    then none
    else from_parts net memory p.0 (strtol p.1).0 (strtol p.1).1

-- `for (i = n - 1; i >= 0; i--)` with the decimal value of byte `i` and a dot.
unfoldable pub octet_labels : Text → ℕ → Text
octet_labels bytes zero = []
octet_labels bytes (suc i) = decimal (get_or bytes i 0) ++ (b'.' ∷ octet_labels bytes i)

abbrev at_most : ℕ → ℕ → ℕ
at_most limit n = if ltb limit n then limit else n

unfoldable pub reverse_dns_ipv4 : SockAddr → ℕ → Text
unfolding octet_labels
reverse_dns_ipv4 s4 prefix =
    octet_labels s4.sin_addr (at_most 4 (prefix / 8)) ++ codes "in-addr.arpa"

-- The nibble of an even index is the high one of its byte.
unfoldable pub nibble_at : Text → ℕ → ℕ
nibble_at bytes i =
    if i % 2 == 0 then (get_or bytes (i / 2) 0 / 16) % 16 else get_or bytes (i / 2) 0 % 16

unfoldable pub nibble_labels : Text → ℕ → Text
unfolding nibble_at hex_digit
nibble_labels bytes zero = []
nibble_labels bytes (suc i) = hex_digit (nibble_at bytes i) ∷ b'.' ∷ nibble_labels bytes i

unfoldable pub reverse_dns_ipv6 : SockAddr → ℕ → Text
unfolding nibble_labels
reverse_dns_ipv6 s6 prefix =
    nibble_labels s6.sin6_addr (at_most 32 (prefix / 4)) ++ codes "ip6.arpa"

reverse_dns_in : Family → SockAddr → ℕ → Option Text
reverse_dns_in inet a prefix = some (reverse_dns_ipv4 a prefix)
reverse_dns_in inet6 a prefix = some (reverse_dns_ipv6 a prefix)
reverse_dns_in unspec a prefix = none

-- The text left in `result`, a buffer of 73 bytes; `none` is the return of -1.
unfoldable pub network_address_t_to_reverse_dns : NetworkAddress → Option Text
unfolding reverse_dns_in
network_address_t_to_reverse_dns addr = reverse_dns_in addr.address.family addr.address addr.prefix

-- "%s/%d" of the address and the prefix.
unfoldable pub network_address_to_string : Inet → NetworkAddress → Option Text
network_address_to_string net network =
    ip_to_str net network.address >>= λ ip_str. some (ip_str ++ (b'/' ∷ decimal network.prefix))
