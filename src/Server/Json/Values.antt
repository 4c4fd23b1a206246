-- ===== src/Server/Json/Values.antt =====
-- The parsers of the single values of a server in src/types/server_uri.c, but for the networks.
use dnsconfd.Prelude.{
  refl, ◌||◌, inl, inr, Option, none, some, List, Text, text_eq, codes, arith, length, Bool-cases,
  leb, ◌>>=◌,
}
use dnsconfd.Prelude.Int.{pos, pos_part, negsuc, ltb_ℤ}
use dnsconfd.Server.{Server, protocols_end, protocol_eq, ifnamsiz, protocol_from_nstring}
use dnsconfd.Server.Valid.{
  Fills, IsServer, same-IsServer, with_port-IsServer, with_protocol-IsServer,
  with_interface-IsServer,
}
use dnsconfd.Json.{Json, null, boolean, integer, string}
use dnsconfd.Server.Json.{
  parse_json_port_field, parse_json_protocol_field, parse_json_priority_field,
  parse_json_interface_field, parse_json_dnssec_field, parse_json_ca_field, parse_json_name_field,
  parse_json_string_list, parse_json_domains_field, parse_json_search_domains_field, optional,
}

pub optional-Fills :
    (o : Option Json) (parser : Json → Server → Option Server)
    → ((v : Json) (s : Server) → IsServer s → Fills (parser v s))
    → (s : Server) → IsServer s
    → Fills (optional o parser s)
optional-Fills none parser f s h = h
optional-Fills (some v) parser f s h = f v s h

pub port-Fills : (v : Json) (s : Server) → IsServer s → Fills (parse_json_port_field v s)
unfolding parse_json_port_field
port-Fills (integer n) s h = elim (Bool-cases (ltb_ℤ n (pos 0) || ltb_ℤ (pos 65535) n)) [
  | inl e ↦ rw e tt
  | inr e ↦ rw e (with_port-IsServer s (pos_part n) (ground (arith, e)) h)
]
port-Fills null s h = tt
port-Fills _ s h = tt

pub protocol-Fills : (v : Json) (s : Server) → IsServer s → Fills (parse_json_protocol_field v s)
unfolding parse_json_protocol_field
protocol-Fills (string t) s h =
    elim (Bool-cases (protocol_eq (protocol_from_nstring t (length t)) protocols_end)) [
      | inl e ↦ rw e tt
      | inr e ↦ rw e (with_protocol-IsServer s (protocol_from_nstring t (length t)) e h)
    ]
protocol-Fills null s h = tt
protocol-Fills _ s h = tt

pub priority-Fills : (v : Json) (s : Server) → IsServer s → Fills (parse_json_priority_field v s)
unfolding parse_json_priority_field
priority-Fills (integer n) s h =
    elim (Bool-cases (ltb_ℤ n (negsuc 0x7fff_ffff) || ltb_ℤ (pos 0x7fff_ffff) n)) [
      | inl e ↦ rw e tt
      | inr e ↦ rw e (same-IsServer s (record s { priority = n }) h refl refl refl refl)
    ]
priority-Fills null s h = tt
priority-Fills _ s h = tt

pub interface-Fills : (v : Json) (s : Server) → IsServer s → Fills (parse_json_interface_field v s)
unfolding parse_json_interface_field
interface-Fills (string t) s h = elim (Bool-cases (leb ifnamsiz (length t))) [
  | inl e ↦ rw e tt
  | inr e ↦ rw e (with_interface-IsServer s t (ground (arith, e)) h)
]
interface-Fills null s h = tt
interface-Fills _ s h = tt

pub dnssec-Fills : (v : Json) (s : Server) → IsServer s → Fills (parse_json_dnssec_field v s)
unfolding parse_json_dnssec_field
dnssec-Fills (boolean b) s h = same-IsServer s _ h refl refl refl refl
dnssec-Fills (integer n) s h = same-IsServer s _ h refl refl refl refl
dnssec-Fills (string t) s h = elim (Bool-cases (text_eq t (codes "0"))) [
  | inl e ↦ rw e (same-IsServer s (record s { dnssec = 0 }) h refl refl refl refl)
  | inr e ↦ rw e h
]
dnssec-Fills null s h = tt
dnssec-Fills _ s h = tt

pub ca-Fills : (v : Json) (s : Server) → IsServer s → Fills (parse_json_ca_field v s)
unfolding parse_json_ca_field
ca-Fills (string t) s h = same-IsServer s _ h refl refl refl refl
ca-Fills null s h = tt
ca-Fills _ s h = tt

pub name-Fills : (v : Json) (s : Server) → IsServer s → Fills (parse_json_name_field v s)
unfolding parse_json_name_field
name-Fills (string t) s h = same-IsServer s _ h refl refl refl refl
name-Fills null s h = tt
name-Fills _ s h = tt

-- The lists of domains are not looked into.
pub domains-Fills : (v : Json) (s : Server) → IsServer s → Fills (parse_json_domains_field v s)
unfolding parse_json_domains_field
domains-Fills v s h = go (parse_json_string_list v s.routing_domains)
  where
    go : (o : Option (List Text)) → Fills (o >>= λ l. some (record s { routing_domains = l }))
    go none = tt
    go (some l) = same-IsServer s (record s { routing_domains = l }) h refl refl refl refl

pub search_domains-Fills :
    (v : Json) (s : Server) → IsServer s → Fills (parse_json_search_domains_field v s)
unfolding parse_json_search_domains_field
search_domains-Fills v s h = go (parse_json_string_list v s.search_domains)
  where
    go : (o : Option (List Text)) → Fills (o >>= λ l. some (record s { search_domains = l }))
    go none = tt
    go (some l) = same-IsServer s (record s { search_domains = l }) h refl refl refl refl
