-- ===== src/Daemon/Update/Servers.antt =====
-- What holds of all the servers that `handle_update_call` of src/dbus_server.c accepts.
use dnsconfd.Prelude.{
  ℕ, ◌≡◌, refl, subst, ◌∙◌, false, inl, inr, List, [], ◌∷◌, ◌++◌, All, All-append, Bool-cases,
}
use dnsconfd.Prelude.Int.{ℤ}
use dnsconfd.Ip.{is_wireless, InetLaws}
use dnsconfd.Ip.Laws.{IsStorage}
use dnsconfd.Server.{Server}
use dnsconfd.Server.Valid.{same-IsServer}
use dnsconfd.Daemon.Update.{
  Parsed, error, parsed, then_parse, ServerDict, Host, parse_server, lower, lowered, add_parsed,
  conflicts, is_duplicate, parse_servers,
}
use dnsconfd.Server.Valid.{IsComplete}
use dnsconfd.Daemon.Update.Laws.{Yields, HasBytes, parse_server-IsComplete}

-- No two servers have the same address on different interfaces.
abbrev pub NoConflict : List Server → Type 0
NoConflict [] = Unit
NoConflict (s ∷ l) = All (λ t. conflicts t s ≡ false) l × NoConflict l

module _ (host : Host) (laws : InetLaws host.net)
    (storage : (n : ℕ) → IsStorage (host.memory n)) where
  append-NoConflict :
      (l : List Server) (s : Server)
      → NoConflict l
      → is_duplicate s l ≡ false
      → NoConflict (l ++ (s ∷ []))
  append-NoConflict [] s h e = (tt, tt)
  append-NoConflict (x ∷ l) s h e = elim (Bool-cases (conflicts s x)) [
    | inl c ↦ cc (rw c at e)
    | inr c ↦ (
      All-append (λ t. conflicts t x ≡ false) l (s ∷ []) h.0 (c, tt),
      append-NoConflict l s h.1 (rw c at e),
    )
  ]

  lowered-IsComplete : (s : Server) → IsComplete s → IsComplete (lowered host s)
  unfolding lowered
  lowered-IsComplete s h = elim (Bool-cases (is_wireless host.is_directory s.interface)) [
    | inl e ↦ rw e (record {
      server = same-IsServer s _ h.server refl refl refl refl;
      port_pos = h.port_pos;
      has_domain = h.has_domain;
    })
    | inr e ↦ rw e h
  ]

  lowered-is_duplicate :
      (s : Server) (l : List Server) → is_duplicate (lowered host s) l ≡ is_duplicate s l
  unfolding lowered
  lowered-is_duplicate s l = elim (Bool-cases (is_wireless host.is_directory s.interface)) [
    | inl e ↦ rw e (go (lower s.priority) l)
    | inr e ↦ rw e
  ]
    where
      go : (p : ℤ) (l : List Server) → is_duplicate (record s { priority = p }) l ≡ is_duplicate s l
      go p [] = refl
      go p (x ∷ l) = rw (go p l)

  add_parsed_lem :
      (s : Server) (l : List Server)
      → IsComplete s
      → All IsComplete l
      → NoConflict l
      → All IsComplete (add_parsed host s l) × NoConflict (add_parsed host s l)
  add_parsed_lem s l h k n = elim (Bool-cases (is_duplicate s l)) [
    | inl e ↦ rw e (k, n)
    | inr e ↦ rw e (
      All-append IsComplete l (lowered host s ∷ []) k (lowered-IsComplete s h, tt),
      append-NoConflict l (lowered host s) n (lowered-is_duplicate s l ∙ e),
    )
  ]

  parse_servers-from :
      (dicts : List ServerDict) (l result : List Server)
      → All (λ d. HasBytes d.address_bytes) dicts
      → All IsComplete l
      → NoConflict l
      → parse_servers host dicts l ≡ parsed result
      → All IsComplete result × NoConflict result
  unfolding parse_servers
  parse_servers-from [] l result b k n e =
      let same : l ≡ result = cc in (subst (All IsComplete) same k, subst NoConflict same n)
  parse_servers-from (d ∷ ds) l result b k n e =
      go (parse_server host d) (parse_server-IsComplete host laws storage d b.0)
        (λ m k' n' e'. parse_servers-from ds m result b.1 k' n' e') e
    where
      go :
          (r : Parsed Server)
          → Yields IsComplete r
          → ((m : List Server)
              → All IsComplete m
              → NoConflict m
              → parse_servers host ds m ≡ parsed result
              → All IsComplete result × NoConflict result)
          → then_parse r (λ s. parse_servers host ds (add_parsed host s l)) ≡ parsed result
          → All IsComplete result × NoConflict result
      go (error x) h f e' = cc
      go (parsed s) h f e' =
          let (k', n') = add_parsed_lem s l h k n in f (add_parsed host s l) k' n' e'

  -- If an update is accepted, every server has an address of a known family with a port that is not 0,
  -- a supported protocol, an interface name that fits, at least one routing domain, and networks whose
  -- prefix their family allows; and no two servers have the same address on different interfaces. The
  -- bytes of an address are bytes, the memory for a network is of the right size, and the conversions
  -- are ones for which the documentation of `inet_pton` and `inet_ntop` holds.
  pub parse_servers-IsComplete :
      (dicts : List ServerDict) (servers : List Server)
      → All (λ d. HasBytes d.address_bytes) dicts
      → parse_servers host dicts [] ≡ parsed servers
      → All IsComplete servers × NoConflict servers
  parse_servers-IsComplete dicts servers b e = parse_servers-from dicts [] servers b tt tt e
