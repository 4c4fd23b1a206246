-- ===== src/Unbound/Zones/Printed.antt =====
-- The forward zones that `generate_forward_zones` of src/dns_managers/unbound_manager.c writes, as a text.
use mathlib.Core.Option.{some-injective}
use mathlib.Core.List.{append_assoc, append-nil}
use dnsconfd.Prelude.{
  ◌≡◌, sym, ap, ◌∙◌, Bool, true, false, ◌||◌, ◌⊎◌, inl, inr, Option, none, some, List, [], ◌∷◌,
  ◌++◌, Text, text_eq, codes, if◌then◌else◌, Bool-cases, >>=-eq-some,
}
use dnsconfd.HashTable.{Table}
use dnsconfd.Server.{Server}
use dnsconfd.Server.Table.{HasServers}
use dnsconfd.Config.{Mode}
use dnsconfd.Env.{Env, World, ask}
use dnsconfd.Unbound.Select.{get_used_servers}
use dnsconfd.Unbound.Total.{generate_forward_zones_total}
use dnsconfd.Unbound.Zones.{
  Output, server_to_unbound_string, forward_addresses, zone_start, zone_end, root_fallback,
  one_zone, zones_loop, generate_forward_zones,
}

abbrev pub addresses_text : Env → List Server → Text
addresses_text env [] = []
addresses_text env (s ∷ l) = server_to_unbound_string env s ++ addresses_text env l

abbrev pub zone_text : Env → Text → List Server → Text
zone_text env key used = zone_start key ++ (addresses_text env used ++ zone_end used)

-- A domain without servers to use has no zone.
abbrev pub written_zone : Env → Text → List Server → Text
written_zone env key [] = []
written_zone env key (s ∷ l) = zone_text env key (s ∷ l)

abbrev pub marks_root : Text → List Server → Bool → Bool
marks_root key [] root = root
marks_root key (s ∷ l) root = root || text_eq key (codes ".")

abbrev used_or_nil : Option (List Server) → List Server
used_or_nil none = []
used_or_nil (some used) = used

-- A zone for each domain that has servers to use, and one for the root that leads nowhere if it is not
-- among them.
abbrev pub zones_text : Env → Mode → Table (List Server) → Bool → Text
zones_text env mode [] root = if root then [] else root_fallback
zones_text env mode ((key, servers) ∷ m) root =
    let used = used_or_nil (get_used_servers servers mode key) in
    written_zone env key used ++ zones_text env mode m (marks_root key used root)

forward_addresses_lem :
    (env : Env) (l : List Server) (text : Text) (w : World)
    → (forward_addresses env l text w).fine ≡ true
    → (forward_addresses env l text w).text ≡ text ++ addresses_text env l
unfolding forward_addresses
forward_addresses_lem env [] text w h = sym (append-nil text)
forward_addresses_lem env (s ∷ l) text w h = elim (Bool-cases (env.succeeds w.calls)) [
  | inl e ↦ rw e (
      forward_addresses_lem env l (text ++ server_to_unbound_string env s) (ask env w).1 (rw e at h)
      ∙ append_assoc text (server_to_unbound_string env s) (addresses_text env l))
  | inr e ↦ cc (rw e at h)
]

one_zone_lem :
    (env : Env) (key : Text) (used : List Server) (text : Text) (w : World)
    → (one_zone env key used text w).fine ≡ true
    → (one_zone env key used text w).text ≡ text ++ zone_text env key used
one_zone_lem env key used text w h =
    elim (Bool-cases (forward_addresses env used (text ++ zone_start key) w).fine) [
      | inl e ↦ rw e (
          ap (λ t. t ++ zone_end used) (forward_addresses_lem env used (text ++ zone_start key) w e)
          ∙ (append_assoc (text ++ zone_start key) (addresses_text env used) (zone_end used)
              ∙ append_assoc text (zone_start key) (addresses_text env used ++ zone_end used)))
      | inr e ↦ cc (rw e at h)
    ]

zones_loop_lem :
    (env : Env) (mode : Mode) (m : Table (List Server)) (root : Bool) (text : Text) (w : World)
    (o : Output)
    → zones_loop env mode m root text w ≡ some o
    → o.fine ≡ true
    → o.text ≡ text ++ zones_text env mode m root
unfolding zones_loop
zones_loop_lem env mode [] true text w o e h =
    sym (ap Output.text (some-injective _ o e)) ∙ sym (append-nil text)
zones_loop_lem env mode [] false text w o e h = sym (ap Output.text (some-injective _ o e))
zones_loop_lem env mode ((key, servers) ∷ m) root text w o e h =
    let (used, f, e1) = >>=-eq-some (get_used_servers servers mode key) _ e in
    rw f (go used e1 (zones_loop_lem env mode m))
  where
    go :
        (used : List Server)
        → elim used [
          | [] ↦ zones_loop env mode m root text w
          | s ∷ l ↦
              let z = one_zone env key (s ∷ l) text w in
              let rest = zones_loop env mode m (root || text_eq key (codes ".")) z.text z.world in
              if z.fine then rest else some z
        ]
          ≡ some o
        → ((r : Bool) (t : Text) (v : World) (p : Output)
            → zones_loop env mode m r t v ≡ some p
            → p.fine ≡ true
            → p.text ≡ t ++ zones_text env mode m r)
        → o.text
          ≡ text ++ (written_zone env key used ++ zones_text env mode m (marks_root key used root))
    go [] e' rest = rest root text w o e' h
    go (s ∷ l) e' rest =
        let z = one_zone env key (s ∷ l) text w in
        let root' = root || text_eq key (codes ".") in
        elim (Bool-cases z.fine) [
          | inl f ↦
              rest root' z.text z.world o (rw f at e') h
              ∙ (ap (λ t. t ++ zones_text env mode m root') (one_zone_lem env key (s ∷ l) text w f)
                  ∙ append_assoc text (zone_text env key (s ∷ l)) (zones_text env mode m root'))
          | inr f ↦ cc (ap Output.fine (some-injective _ o (rw f at e')))
        ]

-- For every table without an empty entry the function returns. If it returns without an error, it has
-- added to the file one zone for each domain that has servers to use, with those servers, and, if the
-- root is not among those domains, one for the root that leads nowhere.
pub generate_forward_zones-zones_text :
    (env : Env) (m : Table (List Server)) (mode : Mode) (text : Text) (w : World)
    → HasServers m
    → (o : Output) × (generate_forward_zones env m mode text w ≡ some o)
      × ((o.fine ≡ false) ⊎ (o.text ≡ text ++ zones_text env mode m false))
unfolding generate_forward_zones
generate_forward_zones-zones_text env m mode text w h =
    let (o, e) = generate_forward_zones_total env m mode text w h in
    (
      o,
      e,
      elim (Bool-cases o.fine) [
        | inl f ↦ inr (zones_loop_lem env mode m false text w o e f)
        | inr f ↦ inl f
      ],
    )
