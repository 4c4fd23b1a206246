-- ===== src/Unbound/Compare.antt =====
-- `compare_addresses` and `compare_servers` of src/dns_managers/unbound_manager.c: whether the servers
-- of a domain are still those that Unbound has. The result is whether the C function returned 1.
pub mod Same
use dnsconfd.Ip.{ip_text}
use dnsconfd.Prelude.{
  ◌≡◌, ◌≢◌, refl, ap, sym, ◌∙◌, Bool, true, false, not, ◌&&◌, ◌||◌, inl, inr, Option, none, some,
  List, [], ◌∷◌, ◌++◌, Text, text_eq, text_eq_sound, arith, All, if◌then◌else◌, ◌==◌, length,
  ||-false, &&-true, Bool-cases,
}
use dnsconfd.Prelude.Int.{eqb_ℤ}
use dnsconfd.Ip.{Family, unspec, inet, inet6, SockAddr, family_eq, ip_to_str}
use dnsconfd.Ip.Laws.{IsAddress}
use dnsconfd.Server.{Server, udp, tcp, tls, protocols_end, Protocol, protocol_eq, protocol_number}
use dnsconfd.Env.{Env}
use dnsconfd.Unbound.Zones.{endpoint}
use dnsconfd.Unbound.Commands.{server_argument, server_arguments, get_forward_add_command}

unfoldable pub compare_addresses_in : Family → SockAddr → SockAddr → Bool
compare_addresses_in inet a b = not (text_eq a.sin_addr b.sin_addr) || not (a.port == b.port)
compare_addresses_in _ a b = not (a.port == b.port) || not (text_eq a.sin6_addr b.sin6_addr)

unfoldable pub compare_addresses : SockAddr → SockAddr → Bool
unfolding compare_addresses_in
compare_addresses a b =
    if not (family_eq a.family b.family) then true else compare_addresses_in a.family a b

-- One is set and the other is not, or both are and differ.
abbrev pub optional_differ : Option Text → Option Text → Bool
optional_differ none none = false
optional_differ (some a) (some b) = not (text_eq a b)
optional_differ _ _ = true

-- The body of the loop.
unfoldable pub server_differs : Server → Server → Bool
unfolding compare_addresses
server_differs a b =
    compare_addresses a.address b.address
    || (not (eqb_ℤ a.priority b.priority)
        || (not (text_eq a.interface b.interface)
            || (not (a.dnssec == b.dnssec)
                || (not (protocol_eq a.protocol b.protocol)
                    || (optional_differ a.certification_authority b.certification_authority
                        || optional_differ a.name b.name)))))

unfoldable pub compare_pairs : List Server → List Server → Bool
unfolding server_differs
compare_pairs (a ∷ as') (b ∷ bs') =
    let rest = compare_pairs as' bs' in if server_differs a b then true else rest
compare_pairs _ _ = false

unfoldable pub compare_servers : List Server → List Server → Bool
unfolding compare_pairs
compare_servers a b = if not (length a == length b) then true else compare_pairs a b
