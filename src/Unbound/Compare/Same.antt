-- ===== src/Unbound/Compare/Same.antt =====
-- What it means that `compare_servers` of src/dns_managers/unbound_manager.c finds no difference.
use dnsconfd.Ip.{ip_text}
use dnsconfd.Prelude.{
  ◌≡◌, refl, ap, sym, Bool, true, false, not, ◌||◌, Option, none, some, List, [], ◌∷◌, Text,
  text_eq, text_eq_sound, arith, ◌==◌, length, ||-false, Bool-cases, inl, inr,
}
use dnsconfd.Prelude.Int.{eqb_ℤ}
use dnsconfd.Ip.{Family, unspec, inet, inet6, SockAddr, family_eq, ip_to_str, Inet}
use dnsconfd.Server.{Server, protocol_eq, protocol_number}
use dnsconfd.Env.{Env}
use dnsconfd.Unbound.Commands.{
  flag_arguments, first_flags, server_argument, server_arguments, get_forward_add_command,
}
use dnsconfd.Unbound.Compare.{
  compare_addresses, compare_addresses_in, server_differs, compare_pairs, compare_servers,
  optional_differ,
}

not-false : (b : Bool) → not b ≡ false → b ≡ true
not-false true h = refl
not-false false h = cc

family_eq_sound : (a b : Family) → family_eq a b ≡ true → a ≡ b
family_eq_sound unspec unspec h = refl
family_eq_sound inet inet h = refl
family_eq_sound inet6 inet6 h = refl
family_eq_sound _ _ h = cc

same_in :
    (f : Family) (net : Inet) (a b : SockAddr)
    → compare_addresses_in f a b ≡ false
    → a.family ≡ f
    → b.family ≡ f
    → (a.port ≡ b.port) × (ip_text net a ≡ ip_text net b)
unfolding compare_addresses_in ip_to_str
same_in unspec net a b h p q = (ground arith, rw (p, q))
same_in inet net a b h p q =
    let (x, y) = ||-false (not (text_eq a.sin_addr b.sin_addr)) (not (a.port == b.port)) h in
    (ground arith, rw (p, q) (ap net.ntop4 (text_eq_sound a.sin_addr b.sin_addr (not-false _ x))))
same_in inet6 net a b h p q =
    let (x, y) = ||-false (not (a.port == b.port)) (not (text_eq a.sin6_addr b.sin6_addr)) h in
    (ground arith, rw (p, q) (ap net.ntop6 (text_eq_sound a.sin6_addr b.sin6_addr (not-false _ y))))

same_address :
    (net : Inet) (a b : SockAddr)
    → compare_addresses a b ≡ false
    → (a.port ≡ b.port) × (ip_text net a ≡ ip_text net b)
unfolding compare_addresses
same_address net a b h = elim (Bool-cases (family_eq a.family b.family)) [
  | inl e ↦
      let same = family_eq_sound a.family b.family e in
      same_in a.family net a b (rw e at h) refl (sym same)
  | inr e ↦ cc (rw e at h)
]

same_name : (a b : Option Text) → optional_differ a b ≡ false → a ≡ b
same_name none none h = refl
same_name (some a) (some b) h = ap some (text_eq_sound a b (not-false _ h))
same_name _ _ h = cc

differences :
    (a p i d t c n : Bool)
    → (a || (not p || (not i || (not d || (not t || (c || n)))))) ≡ false
    → (a ≡ false) × (d ≡ true) × (t ≡ true) × (n ≡ false)
differences a p i d t c n h = ground arith

-- What Unbound is told of a server: its address with port and name, and the flags of the first one.
same_server :
    (env : Env) (a b : Server)
    → server_differs a b ≡ false
    → (server_argument env a ≡ server_argument env b) × (flag_arguments a ≡ flag_arguments b)
unfolding server_differs server_argument
same_server env a b h =
    let (address, dnssec, protocol, name) =
      differences (compare_addresses a.address b.address) (eqb_ℤ a.priority b.priority)
        (text_eq a.interface b.interface) (a.dnssec == b.dnssec) (protocol_eq a.protocol b.protocol)
        (optional_differ a.certification_authority b.certification_authority)
        (optional_differ a.name b.name) h in
    let (port, text) = same_address env.net a.address b.address address in
    let number : protocol_number a.protocol ≡ protocol_number b.protocol = ground arith in
    let flag : a.dnssec ≡ b.dnssec = ground arith in
    (rw (text, port, number, same_name a.name b.name name), rw (number, flag))

same_pairs :
    (env : Env) (a b : List Server)
    → length a ≡ length b
    → compare_pairs a b ≡ false
    → (server_arguments env a ≡ server_arguments env b) × (first_flags a ≡ first_flags b)
unfolding compare_pairs server_arguments
same_pairs env [] [] e h = (refl, refl)
same_pairs env [] (y ∷ bs') e h = absurd (omega arith)
same_pairs env (x ∷ as') [] e h = absurd (omega arith)
same_pairs env (x ∷ as') (y ∷ bs') e h = elim (Bool-cases (server_differs x y)) [
  | inl d ↦ cc (rw d at h)
  | inr d ↦
      let (text, flags) = same_server env x y d in
      let (texts, _) = same_pairs env as' bs' (omega arith) (rw d at h) in (rw (text, texts), flags)
]

-- If `compare_servers` finds no difference between the servers of a domain and those that Unbound
-- was told of, the command that `update` leaves out is the very command that was given before.
pub compare_servers-get_forward_add_command :
    (env : Env) (domain : Text) (new old : List Server)
    → compare_servers new old ≡ false
    → get_forward_add_command env domain new ≡ get_forward_add_command env domain old
unfolding compare_servers get_forward_add_command
compare_servers-get_forward_add_command env domain new old h =
    elim (Bool-cases (length new == length old)) [
      | inl e ↦
          let (texts, flags) = same_pairs env new old (ground arith) (rw e at h) in
          rw (texts, flags)
      | inr e ↦ cc (rw e at h)
    ]
