-- ===== src/Client/Update/Fields.antt =====
-- The fields of the dictionary of a server, as src/cli_commands/cli_update.c builds them and
-- src/dbus_server.c reads them.
use mathlib.Core.List.{append_assoc, append-nil}
use dnsconfd.Prelude.{
  ℕ, ◌<◌, ◌≤◌, ◌≡◌, refl, ap, sym, ◌∙◌, true, false, not, inl, inr, Option, none, some, List, [],
  ◌∷◌, ◌++◌, Text, arith, All, length, is_nil, if◌then◌else◌, Bool-cases, ◌==◌, ltb,
}
use dnsconfd.Prelude.Int.{pos}
use dnsconfd.Ip.{SockAddr, are_ips_equal, set_default_port}
use dnsconfd.Ip.Laws.{IsAddress, are_ips_equal-port, are_ips_equal-other_port}
use dnsconfd.Server.{
  Server, Protocol, protocols_end, protocol_eq, dns_protocol_t_to_string, protocol_from-to_string,
}
use dnsconfd.Server.Json.Members.{SameNetworks}
use dnsconfd.Daemon.Update.{
  parsed, Host, parse_port, parse_protocol, parse_interface, parse_dnssec, parse_ca, parse_name,
  has_dots, save_domains, parse_domains, parse_search, field,
}
use dnsconfd.Client.Update.{build_string_array}

-- A domain that the daemon takes as it is.
abbrev pub IsPlain : Host → Text → Type 0
IsPlain host d = (is_nil d ≡ false) × (has_dots d ≡ false) × (host.idn d ≡ some d)

-- The same server.
pub record IsSame (t s : Server) : Type 0 where
  pub same_ip : are_ips_equal t.address s.address ≡ true
  pub port : t.address.port ≡ s.address.port
  pub priority : t.priority ≡ s.priority
  pub interface : t.interface ≡ s.interface
  pub dnssec : t.dnssec ≡ s.dnssec
  pub protocol : t.protocol ≡ s.protocol
  pub ca : t.certification_authority ≡ s.certification_authority
  pub name : t.name ≡ s.name
  pub routing : t.routing_domains ≡ s.routing_domains
  pub search : t.search_domains ≡ s.search_domains
  pub networks : SameNetworks t.networks s.networks

save_lem :
    (host : Host) (l acc : List Text)
    → All (IsPlain host) l
    → save_domains host l acc ≡ parsed (acc ++ l)
unfolding save_domains
save_lem host [] acc h = ap parsed (sym (append-nil acc))
save_lem host (d ∷ l) acc ((n, dots, idn), h) =
    rw (n, dots, idn)
      (save_lem host l (acc ++ (d ∷ [])) h ∙ ap parsed (append_assoc acc (d ∷ []) l))

default_port_lem :
    (a : SockAddr) (p : ℕ)
    → IsAddress a
    → set_default_port a p ≡ record a { port = if a.port == 0 then p else a.port }
unfolding set_default_port
default_port_lem a p h = ground (arith, h.known)

pub defaulted_lem :
    (a b : SockAddr) (p : ℕ)
    → IsAddress a
    → IsAddress b
    → are_ips_equal a b ≡ true
    → a.port ≡ b.port
    → (are_ips_equal (set_default_port a p) (set_default_port b p) ≡ true)
      × ((set_default_port a p).port ≡ (set_default_port b p).port)
defaulted_lem a b p h k same port =
    rw (default_port_lem a p h, default_port_lem b p k, port) (equal _ _, refl)
  where
    equal : (m n : ℕ) → are_ips_equal (record a { port = m }) (record b { port = n }) ≡ true
    equal m n =
        are_ips_equal-port a (record b { port = n }) m ∙ (are_ips_equal-other_port a b n ∙ same)

pub port_lem :
    (s u : Server)
    → u.address.port ≡ 0
    → s.address.port < 65536
    → field (if ltb 0 s.address.port then some (pos s.address.port) else none) parse_port u
      ≡ parsed (record u { address = record u.address { port = s.address.port } })
unfolding parse_port
port_lem s u z h = elim (Bool-cases (ltb 0 s.address.port)) [
  | inl e ↦ rw e (ground (arith, h))
  | inr e ↦ let n : s.address.port ≡ u.address.port = ground (arith, z) in rw (e, n)
]

pub interface_lem :
    (t : Text) (u : Server)
    → u.interface ≡ []
    → length t < 16
    → field (if is_nil t then none else some t) parse_interface u
      ≡ parsed (record u { interface = t })
unfolding parse_interface
interface_lem [] u z h = ap (λ x. parsed (record u { interface = x })) z
interface_lem (c ∷ t) u z h = ground (arith, h)

pub protocol_lem :
    (p : Protocol) (u : Server)
    → protocol_eq p protocols_end ≡ false
    → parse_protocol (dns_protocol_t_to_string p) u ≡ parsed (record u { protocol = p })
unfolding parse_protocol
protocol_lem p u h = rw (protocol_from-to_string p, h)

pub dnssec_lem :
    (n : ℕ) (u : Server) → n ≤ 1 → parse_dnssec (not (n == 0)) u ≡ parsed (record u { dnssec = n })
unfolding parse_dnssec
dnssec_lem n u h = ground arith

pub ca_lem :
    (o : Option Text) (u : Server)
    → u.certification_authority ≡ none
    → field o parse_ca u ≡ parsed (record u { certification_authority = o })
unfolding parse_ca
ca_lem none u h = ap (λ x. parsed (record u { certification_authority = x })) h
ca_lem (some t) u h = refl

pub name_lem :
    (o : Option Text) (u : Server)
    → u.name ≡ none
    → field o parse_name u ≡ parsed (record u { name = o })
unfolding parse_name
name_lem none u h = ap (λ x. parsed (record u { name = x })) h
name_lem (some t) u h = refl

pub routing_lem :
    (host : Host) (l : List Text) (u : Server)
    → u.routing_domains ≡ []
    → All (IsPlain host) l
    → field (build_string_array l) (parse_domains host) u
      ≡ parsed (record u { routing_domains = l })
unfolding build_string_array parse_domains
routing_lem host [] u z h = ap (λ x. parsed (record u { routing_domains = x })) z
routing_lem host (d ∷ l) u z h = rw (z, save_lem host (d ∷ l) [] h)

pub search_lem :
    (host : Host) (l : List Text) (u : Server)
    → u.search_domains ≡ []
    → All (IsPlain host) l
    → field (build_string_array l) (parse_search host) u ≡ parsed (record u { search_domains = l })
unfolding build_string_array parse_search
search_lem host [] u z h = ap (λ x. parsed (record u { search_domains = x })) z
search_lem host (d ∷ l) u z h = rw (z, save_lem host (d ∷ l) [] h)
