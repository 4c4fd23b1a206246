-- ===== src/Options/File/Zones.antt =====
-- The RPZ zones of a configuration file: `parse_rpz_zones` of
-- src/configuration_parsing/config_file.c.
pub mod Laws
use dnsconfd.Prelude.{
  Bool, true, false, not, ◌&&◌, Option, none, some, List, [], ◌∷◌, ◌++◌, Text, text_eq, codes,
  if◌then◌else◌, is_some,
}
use dnsconfd.Config.{Config, RpzZone}
use dnsconfd.Yaml.{
  Event, scalar, sequence_start, sequence_end, mapping_start, mapping_end, stream_end, other_event,
  Outcome, done, failed, on_done,
}

-- The variables of the loop.
pub record Zoning : Type 0 where
  pub config : Config
  pub current_zone : Option RpzZone
  pub current_key : Option Text
  pub expect_key : Bool

abbrev pub no_zone : RpzZone
no_zone = record { name = none; master = none; zonefile = none }

unfoldable pub zone_field : RpzZone → Text → Text → Outcome RpzZone
zone_field zone key value =
    if text_eq key (codes "name")
    then done (record zone { name = some value })
    else if text_eq key (codes "master")
    then done (record zone { master = some value })
    else if text_eq key (codes "zonefile")
    then done (record zone { zonefile = some value })
    else failed (some (codes "Unrecognized field in rpz"))

-- The end of the mapping of a zone.
unfoldable pub zone_end : Zoning → RpzZone → Outcome Zoning
zone_end r zone =
    if not (is_some zone.name)
    then failed (some (codes "RPZ zone does not have name set"))
    else if not (is_some zone.master) && not (is_some zone.zonefile)
    then failed (some (codes "RPZ zone must have master, zonefile, or both"))
    else done (record r {
      config = record r.config { rpz_zones = r.config.rpz_zones ++ (zone ∷ []) };
      current_zone = none;
    })

zone_scalar : Zoning → Text → Bool → Outcome Zoning
unfolding zone_field
zone_scalar r value true = done (record r { current_key = some value; expect_key = false })
zone_scalar r value false = elim r.current_zone [
  | none ↦ done (record r { current_key = none; expect_key = true })
  | some zone ↦ elim r.current_key [
    | none ↦ done (record r { current_key = none; expect_key = true })
    | some key ↦
        on_done (zone_field zone key value)
          (λ z. done (record r { current_zone = some z; current_key = none; expect_key = true }))
  ]
]

-- One event that does not end the loop.
unfoldable pub zone_event : Event → Zoning → Outcome Zoning
unfolding zone_end zone_scalar
zone_event mapping_start r = elim r.current_zone [
  | none ↦ done (record r { current_zone = some no_zone })
  | some zone ↦ failed (some (codes "Badly formatted rpz"))
]
zone_event mapping_end r = elim r.current_zone [ none ↦ done r | some zone ↦ zone_end r zone ]
zone_event (scalar value) r = zone_scalar r value r.expect_key
zone_event _ r = done r

unfoldable pub zones_loop : List Event → Zoning → Outcome (Config × List Event)
unfolding zone_event
zones_loop [] r = failed (some (codes "Failed to parse RPZ configuration YAML"))
zones_loop (sequence_end ∷ events) r = done (r.config, events)
zones_loop (event ∷ events) r = on_done (zone_event event r) (λ next. zones_loop events next)

unfoldable pub parse_rpz_zones : List Event → Config → Outcome (Config × List Event)
unfolding zones_loop
parse_rpz_zones events config =
    zones_loop events
      (record { config = config; current_zone = none; current_key = none; expect_key = true })
