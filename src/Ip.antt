-- ===== src/Ip.antt =====
-- src/ip_utilities.c and the socket address that it works on.
pub mod Laws
use dnsconfd.Prelude.{
  ℕ, ◌+◌, ◌*◌, ◌<◌, ◌≡◌, Bool, true, false, not, Option, none, some, List, [], ◌∷◌, ◌++◌, Text,
  text_eq, codes, if◌then◌else◌, ◌==◌, length, All, replicate, is_some, is_nil,
}

-- The values of `ss_family` that the program sets; `unspec` is the 0 of a cleared structure.
pub data Family : Type 0 where
  unspec inet inet6 : Family

-- `struct sockaddr_storage`, as the program reads it: `sin_port` and `sin6_port` are the same two
-- bytes, and `sin_addr` and `sin6_addr` do not overlap.
pub record SockAddr : Type 0 where
  pub family : Family
  pub port : ℕ
  pub sin_addr : Text
  pub sin6_addr : Text

-- A structure that `memset` or an initialiser has cleared.
abbrev pub cleared : SockAddr
cleared = record { family = unspec; port = 0; sin_addr = replicate 4 0; sin6_addr = replicate 16 0 }

-- The C library's conversions of addresses. `pton` returns `none` where the C function does not
-- return 1.
pub record Inet : Type 0 where
  pub pton4 : Text → Option Text
  pub pton6 : Text → Option Text
  pub ntop4 : Text → Text
  pub ntop6 : Text → Text

-- What their manual pages say of them.
pub record InetLaws (net : Inet) : Type 0 where
  pub pton4_size : (t a : Text) → net.pton4 t ≡ some a → (length a ≡ 4) × All (λ b. b < 256) a
  pub pton6_size : (t a : Text) → net.pton6 t ≡ some a → (length a ≡ 16) × All (λ b. b < 256) a
  pub pton4-ntop4 :
      (a : Text) → length a ≡ 4 → All (λ b. b < 256) a → net.pton4 (net.ntop4 a) ≡ some a
  pub pton6-ntop6 :
      (a : Text) → length a ≡ 16 → All (λ b. b < 256) a → net.pton6 (net.ntop6 a) ≡ some a
  pub pton4-ntop6 : (a : Text) → net.pton4 (net.ntop6 a) ≡ none
  pub ntop4_fits : (a : Text) → length (net.ntop4 a) < 16
  pub ntop6_fits : (a : Text) → length (net.ntop6 a) < 46
  pub ntop4_no_slash : (a : Text) → All (λ c. (c == b'/') ≡ false) (net.ntop4 a)
  pub ntop6_no_slash : (a : Text) → All (λ c. (c == b'/') ≡ false) (net.ntop6 a)

-- A failing call leaves the address as it was.
unfoldable pub parse_ip_str : Inet → Text → SockAddr → Option SockAddr
parse_ip_str net str address = elim (net.pton4 str) [
  | some a ↦ some (record address { sin_addr = a; family = inet })
  | none ↦ elim (net.pton6 str) [
    | some a ↦ some (record address { sin6_addr = a; family = inet6 })
    | none ↦ none
  ]
]

-- `none` is the return of -1, which leaves the buffer as it was.
ip_to_str_in : Family → Inet → SockAddr → Option Text
ip_to_str_in inet net address = some (net.ntop4 address.sin_addr)
ip_to_str_in inet6 net address = some (net.ntop6 address.sin6_addr)
ip_to_str_in unspec net address = none

unfoldable pub ip_to_str : Inet → SockAddr → Option Text
unfolding ip_to_str_in
ip_to_str net address = ip_to_str_in address.family net address

-- A pointer to a text that is known to be set.
abbrev pub c_string : Option Text → Text
c_string none = []
c_string (some t) = t

-- The text of an address whose family is known.
abbrev pub ip_text : Inet → SockAddr → Text
ip_text net a = c_string (ip_to_str net a)

set_default_port_in : Family → SockAddr → ℕ → SockAddr
set_default_port_in unspec address port = address
set_default_port_in inet address port =
    if address.port == 0 then record address { port = port } else address
set_default_port_in inet6 address port =
    if address.port == 0 then record address { port = port } else address

unfoldable pub set_default_port : SockAddr → ℕ → SockAddr
unfolding set_default_port_in
set_default_port address port = set_default_port_in address.family address port

abbrev pub family_eq : Family → Family → Bool
family_eq unspec unspec = true
family_eq inet inet = true
family_eq inet6 inet6 = true
family_eq _ _ = false

are_ips_equal_in : Family → SockAddr → SockAddr → Bool
are_ips_equal_in inet a b = text_eq a.sin_addr b.sin_addr
are_ips_equal_in inet6 a b = text_eq a.sin6_addr b.sin6_addr
are_ips_equal_in unspec a b = false

unfoldable pub are_ips_equal : SockAddr → SockAddr → Bool
unfolding are_ips_equal_in
are_ips_equal a b =
    if not (family_eq a.family b.family) then false else are_ips_equal_in a.family a b

-- `stat` on the sysfs directory of the interface: whether it is a directory that exists.
unfoldable pub is_wireless : (Text → Bool) → Text → Bool
is_wireless is_directory ifname =
    is_directory (codes "/sys/class/net/" ++ (ifname ++ codes "/wireless"))
