-- ===== src/Options/File/Zones/Laws.antt =====
-- The RPZ zones that `parse_rpz_zones` of src/configuration_parsing/config_file.c accepts, and the
-- events that it reads.
use dnsconfd.Prelude.{
  Bool, true, false, not, ◌&&◌, Option, none, some, List, [], ◌∷◌, Text, codes, arith, is_some,
}
use dnsconfd.Config.{Config, RpzZone}
use dnsconfd.Config.Sound.{IsSound, zone-IsSound}
use dnsconfd.Yaml.{
  Event, scalar, sequence_start, sequence_end, mapping_start, mapping_end, done, failed, on_done,
}
use dnsconfd.Yaml.Laws.{Holds, on_done-Holds, if-Holds, weaken-Holds}
use dnsconfd.Options.File.Servers.Pending.{Reached}
use dnsconfd.Options.File.Zones.{
  Zoning, no_zone, zone_field, zone_end, zone_scalar, zone_event, zones_loop, parse_rpz_zones,
}

abbrev Zoned : Zoning → Type 0
Zoned r = IsSound r.config

-- A message at every field is no obstacle: the fields of a zone are texts.
field-ends : (z : RpzZone) (key value : Text) → Holds (λ _. Unit) (zone_field z key value)
unfolding zone_field
field-ends z key value = ground arith

end-Zoned : (r : Zoning) (z : RpzZone) → Zoned r → Holds Zoned (zone_end r z)
unfolding zone_end
end-Zoned r z h =
    if-Holds Zoned (not (is_some z.name)) _ _ (λ _. tt)
      (λ named.
        if-Holds Zoned (not (is_some z.master) && not (is_some z.zonefile)) _ _ (λ _. tt)
          (λ found. zone-IsSound r.config z h (ground arith, ground arith)))

scalar-Zoned :
    (r : Zoning) (value : Text) (b : Bool) → Zoned r → Holds Zoned (zone_scalar r value b)
unfolding zone_scalar
scalar-Zoned r value true h = h
scalar-Zoned r value false h = go r.current_zone r.current_key
  where
    go :
        (z : Option RpzZone) (k : Option Text)
        → Holds Zoned (elim z [
          | none ↦ done (record r { current_key = none; expect_key = true })
          | some zone ↦ elim k [
            | none ↦ done (record r { current_key = none; expect_key = true })
            | some key ↦ on_done (zone_field zone key value) (λ z.
                done (record r { current_zone = some z; current_key = none; expect_key = true }))
          ]
        ])
    go none k = h
    go (some z) none = h
    go (some z) (some key) =
        on_done-Holds (λ _. Unit) Zoned (zone_field z key value) _ (field-ends z key value)
          (λ t _ _. h)

event-Zoned : (e : Event) (r : Zoning) → Zoned r → Holds Zoned (zone_event e r)
unfolding zone_event
event-Zoned mapping_start r h = go r.current_zone
  where
    go :
        (z : Option RpzZone)
        → Holds Zoned (elim z [
          | none ↦ done (record r { current_zone = some no_zone })
          | some zone ↦ failed (some (codes "Badly formatted rpz"))
        ])
    go none = h
    go (some z) = tt
event-Zoned mapping_end r h = go r.current_zone
  where
    go : (z : Option RpzZone) → Holds Zoned (elim z [ none ↦ done r | some zone ↦ zone_end r zone ])
    go none = h
    go (some z) = end-Zoned r z h
event-Zoned (scalar value) r h = scalar-Zoned r value r.expect_key h
event-Zoned sequence_start r h = h
event-Zoned _ r h = h

zones_loop-round :
    (e : Event) (events : List Event) (r : Zoning)
    → Zoned r
    → ((next : Zoning) → Zoned next → Holds (Reached events) (zones_loop events next))
    → Holds (Reached (e ∷ events)) (on_done (zone_event e r) (λ next. zones_loop events next))
zones_loop-round e events r h f =
    on_done-Holds Zoned (Reached (e ∷ events)) (zone_event e r) _ (event-Zoned e r h) (λ next _ k.
      weaken-Holds (Reached events) (Reached (e ∷ events)) (zones_loop events next)
        (λ (config, left) (good, less). (good, omega (arith, less))) (f next k))

zones_loop-Reached :
    (events : List Event) (r : Zoning) → Zoned r → Holds (Reached events) (zones_loop events r)
unfolding zones_loop
zones_loop-Reached [] r h = tt
zones_loop-Reached (sequence_end ∷ events) r h = (h, omega arith)
zones_loop-Reached (sequence_start ∷ events) r h =
    zones_loop-round sequence_start events r h (λ next k. zones_loop-Reached events next k)
zones_loop-Reached (e ∷ events) r h =
    zones_loop-round e events r h (λ next k. zones_loop-Reached events next k)

-- The reading of `rpz` ends, whatever the events are. If it succeeds on a sound configuration, then in
-- the result, too, every zone has a name, and a master or a file. No more events are left than there
-- were.
pub parse_rpz_zones-Reached :
    (events : List Event) (config : Config)
    → IsSound config
    → Holds (Reached events) (parse_rpz_zones events config)
unfolding parse_rpz_zones
parse_rpz_zones-Reached events config h = zones_loop-Reached events _ h
