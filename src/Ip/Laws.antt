-- ===== src/Ip/Laws.antt =====
-- Well-formed addresses in src/ip_utilities.c.
use dnsconfd.Prelude.{
  ℕ, ◌<◌, ◌≡◌, ◌≢◌, refl, true, false, inl, inr, some, Text, arith, length, All, Option-cases,
}
use dnsconfd.Ip.{
  are_ips_equal, cleared, family_eq, Family, unspec, inet, inet6, SockAddr, Inet, InetLaws,
  parse_ip_str, ip_to_str, set_default_port,
}

-- An address of one of the two families, with its bytes in place and a port that fits 16 bits.
pub record IsAddress (a : SockAddr) : Type 0 where
  pub known : a.family ≢ unspec
  pub size4 : length a.sin_addr ≡ 4
  pub bytes4 : All (λ b. b < 256) a.sin_addr
  pub size6 : length a.sin6_addr ≡ 16
  pub bytes6 : All (λ b. b < 256) a.sin6_addr
  pub port_fits : a.port < 65536

-- The same without a family: a structure that is cleared or an address.
pub record IsStorage (a : SockAddr) : Type 0 where
  pub size4 : length a.sin_addr ≡ 4
  pub bytes4 : All (λ b. b < 256) a.sin_addr
  pub size6 : length a.sin6_addr ≡ 16
  pub bytes6 : All (λ b. b < 256) a.sin6_addr
  pub port_fits : a.port < 65536

pub IsAddress-IsStorage : (a : SockAddr) → IsAddress a → IsStorage a
IsAddress-IsStorage a h = record {
  size4 = h.size4;
  bytes4 = h.bytes4;
  size6 = h.size6;
  bytes6 = h.bytes6;
  port_fits = h.port_fits;
}

pub IsStorage-IsAddress :
    (a : SockAddr) → family_eq a.family unspec ≡ false → IsStorage a → IsAddress a
IsStorage-IsAddress a e h = record {
  known = λ k. let same : family_eq a.family unspec ≡ true = rw k refl in cc;
  size4 = h.size4;
  bytes4 = h.bytes4;
  size6 = h.size6;
  bytes6 = h.bytes6;
  port_fits = h.port_fits;
}

module _ {net : Inet} (laws : InetLaws net) where
  -- Whatever text is accepted, the structure then holds an address of one of the two families, with
  -- its bytes and the port in range, if the memory was of the right size before. The conversions are
  -- ones for which the documentation of `inet_pton` holds.
  pub parse_ip_str-IsAddress :
      (t : Text) (a b : SockAddr) → IsStorage a → parse_ip_str net t a ≡ some b → IsAddress b
  unfolding parse_ip_str
  parse_ip_str-IsAddress t a b s h = elim (Option-cases (net.pton4 t)) [
    | inl e ↦ elim (Option-cases (net.pton6 t)) [
      | inl f ↦ ground arith
      | inr (c, f) ↦ ground (arith, laws.pton6_size t c f)
    ]
    | inr (c, e) ↦ ground (arith, laws.pton4_size t c e)
  ]

pub parse_ip_str-port :
    (net : Inet) (t : Text) (a b : SockAddr) → parse_ip_str net t a ≡ some b → b.port ≡ a.port
unfolding parse_ip_str
parse_ip_str-port net t a b h = ground arith

pub set_default_port-IsAddress :
    (a : SockAddr) (p : ℕ) → p < 65536 → IsAddress a → IsAddress (set_default_port a p)
unfolding set_default_port
set_default_port-IsAddress a p h s = ground arith

pub set_default_port_ne :
    (a : SockAddr) (p : ℕ) → 0 < p → IsAddress a → 0 < (set_default_port a p).port
unfolding set_default_port
set_default_port_ne a p h s = ground (arith, s.known)

pub ip_to_str_total :
    (net : Inet) (a : SockAddr) → IsAddress a → (t : Text) × (ip_to_str net a ≡ some t)
unfolding ip_to_str
ip_to_str_total net a s = go a.family refl
  where
    go : (f : Family) → a.family ≡ f → (t : Text) × (ip_to_str net a ≡ some t)
    go unspec e = absurd (s.known e)
    go inet e = (net.ntop4 a.sin_addr, ground arith)
    go inet6 e = (net.ntop6 a.sin6_addr, ground arith)

pub with_port : (a : SockAddr) (p : ℕ) → p < 65536 → IsAddress a → IsAddress (record a { port = p })
with_port a p h s = record {
  known = s.known;
  size4 = s.size4;
  bytes4 = s.bytes4;
  size6 = s.size6;
  bytes6 = s.bytes6;
  port_fits = h;
}

pub cleared-IsAddress4 :
    (b : Text)
    → length b ≡ 4
    → All (λ c. c < 256) b
    → IsAddress (record cleared { family = inet; sin_addr = b })
cleared-IsAddress4 b l h = record {
  known = λ e. cc;
  size4 = l;
  bytes4 = h;
  size6 = refl;
  bytes6 = ground arith;
  port_fits = omega arith;
}

pub cleared-IsAddress6 :
    (b : Text)
    → length b ≡ 16
    → All (λ c. c < 256) b
    → IsAddress (record cleared { family = inet6; sin6_addr = b })
cleared-IsAddress6 b l h = record {
  known = λ e. cc;
  size4 = refl;
  bytes4 = ground arith;
  size6 = l;
  bytes6 = h;
  port_fits = omega arith;
}

pub cleared-IsStorage : IsStorage cleared
cleared-IsStorage = record {
  size4 = refl;
  bytes4 = ground arith;
  size6 = refl;
  bytes6 = ground arith;
  port_fits = omega arith;
}

-- The comparison does not look at the ports.
pub are_ips_equal-port :
    (a b : SockAddr) (p : ℕ) → are_ips_equal (record a { port = p }) b ≡ are_ips_equal a b
unfolding are_ips_equal
are_ips_equal-port a b p = ground arith

pub are_ips_equal-other_port :
    (a b : SockAddr) (p : ℕ) → are_ips_equal a (record b { port = p }) ≡ are_ips_equal a b
unfolding are_ips_equal
are_ips_equal-other_port a b p = ground arith
