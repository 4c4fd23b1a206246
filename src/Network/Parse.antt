-- ===== src/Network/Parse.antt =====
-- What the parser of networks accepts.
use dnsconfd.Prelude.{
  ◌≤◌, ◌<◌, ◌≡◌, refl, sym, inl, inr, true, false, some, [], ◌∷◌, ◌++◌, Text, arith, length, All,
  ◌==◌, >>=-eq-some, Option-cases, text_eq_refl,
}
use dnsconfd.Ip.{
  Family, unspec, inet, inet6, SockAddr, Inet, InetLaws, parse_ip_str, ip_to_str, are_ips_equal,
}
use dnsconfd.Ip.Laws.{IsStorage, IsAddress, parse_ip_str-IsAddress}
use dnsconfd.Number.{decimal}
use dnsconfd.Number.Decimal.{strtol-decimal}
use dnsconfd.Network.{
  NetworkAddress, split_slash, network_address_t_from_string, network_address_to_string,
}

-- A network that the rest of the program may rely on.
pub record IsNetwork (n : NetworkAddress) : Type 0 where
  pub addressed : IsAddress n.address
  pub prefix_le : n.prefix ≤ 128
  pub prefix4_le : n.address.family ≡ inet → n.prefix ≤ 32

split_slash-append :
    (ip rest : Text)
    → All (λ c. (c == b'/') ≡ false) ip
    → split_slash (ip ++ (b'/' ∷ rest)) ≡ some (ip, rest)
unfolding split_slash
split_slash-append [] rest h = refl
split_slash-append (c ∷ ip) rest h = rw (h.0, split_slash-append ip rest h.1)

module _ {net : Inet} (laws : InetLaws net) where
  -- Whatever text the parser accepts, the result is an address of a known family with a prefix
  -- that its family allows. The memory of the structure is of the right size, and the conversions are
  -- ones for which the documentation of `inet_pton` holds.
  pub from_string-IsNetwork :
      (memory : SockAddr) (text : Text) (n : NetworkAddress)
      → IsStorage memory
      → network_address_t_from_string net memory text ≡ some n
      → IsNetwork n
  unfolding network_address_t_from_string
  from_string-IsNetwork memory text n s h =
      let (p, e, h1) = >>=-eq-some (split_slash text) _ h in
      elim (Option-cases (parse_ip_str net p.0 memory)) [
        | inl f ↦ ground arith
        | inr (a, f) ↦ ground (arith, parse_ip_str-IsAddress laws p.0 memory a s f)
      ]

  pub parse_ip_str-ip_to_str :
      (a memory : SockAddr)
      → IsAddress a
      → (t : Text) × (b : SockAddr) × (ip_to_str net a ≡ some t)
        × (parse_ip_str net t memory ≡ some b)
        × (are_ips_equal b a ≡ true)
        × (length t < 46)
        × All (λ c. (c == b'/') ≡ false) t
        × (b.family ≡ a.family)
  unfolding ip_to_str parse_ip_str are_ips_equal
  parse_ip_str-ip_to_str a memory h = go a.family refl
    where
      go :
          (f : Family)
          → a.family ≡ f
          → (t : Text) × (b : SockAddr) × (ip_to_str net a ≡ some t)
            × (parse_ip_str net t memory ≡ some b)
            × (are_ips_equal b a ≡ true)
            × (length t < 46)
            × All (λ c. (c == b'/') ≡ false) t
            × (b.family ≡ a.family)
      go unspec e = absurd (h.known e)
      go inet e = (
        net.ntop4 a.sin_addr,
        record memory { sin_addr = a.sin_addr; family = inet },
        rw e,
        rw (laws.pton4-ntop4 a.sin_addr h.size4 h.bytes4, parse_ip_str),
        rw e (text_eq_refl a.sin_addr),
        omega (arith, laws.ntop4_fits a.sin_addr),
        laws.ntop4_no_slash a.sin_addr,
        sym e,
      )
      go inet6 e = (
        net.ntop6 a.sin6_addr,
        record memory { sin6_addr = a.sin6_addr; family = inet6 },
        rw e,
        rw (
          laws.pton4-ntop6 a.sin6_addr,
          laws.pton6-ntop6 a.sin6_addr h.size6 h.bytes6,
          parse_ip_str,
        ),
        rw e (text_eq_refl a.sin6_addr),
        laws.ntop6_fits a.sin6_addr,
        laws.ntop6_no_slash a.sin6_addr,
        sym e,
      )

  -- A network with an address of a known family and an allowed prefix that is printed as "address/prefix" is read back as the same network, whatever the
  -- memory that receives it holds. The conversions are ones for which the documentation of `inet_pton` and
  -- `inet_ntop` holds.
  pub from_string-to_string :
      (n : NetworkAddress) (memory : SockAddr)
      → IsNetwork n
      → (t : Text) × (m : NetworkAddress) × (network_address_to_string net n ≡ some t)
        × (network_address_t_from_string net memory t ≡ some m)
        × (are_ips_equal m.address n.address ≡ true)
        × (m.prefix ≡ n.prefix)
  unfolding network_address_to_string network_address_t_from_string
  from_string-to_string n memory h =
      let (ip, b, shown, parsed, same, fits, clean, fam) =
        parse_ip_str-ip_to_str n.address memory h.addressed in
      (
        ip ++ (b'/' ∷ decimal n.prefix),
        record { address = b; prefix = n.prefix },
        rw shown,
        rw
            (
              split_slash-append ip (decimal n.prefix) clean,
              strtol-decimal n.prefix (omega (arith, h.prefix_le)),
            )
            (ground (arith, parsed, fits, fam, h.prefix_le, h.prefix4_le)),
        same,
        refl,
      )
