-- ===== src/Config/Sound.antt =====
-- Configurations as the parsers of src/configuration_parsing leave them.
use dnsconfd.Prelude.{◌≤◌, ◌≡◌, ◌⊎◌, subst, true, ◌||◌, [], ◌∷◌, ◌++◌, All, All-append, is_some}
use dnsconfd.Prelude.Int.{ℤ, negsuc, pos_part, neg_part}
use dnsconfd.Ip.{SockAddr}
use dnsconfd.Ip.Laws.{IsStorage}
use dnsconfd.Server.{Server}
use dnsconfd.Server.Valid.{IsComplete}
use dnsconfd.Config.{Config, RpzZone}

-- A level of syslog.
abbrev pub IsLevel : ℤ → Type 0
IsLevel n = (neg_part n ≡ 0) × (pos_part n ≤ 7)

-- A zone that Unbound can be given.
abbrev pub IsZone : RpzZone → Type 0
IsZone z = (is_some z.name ≡ true) × ((is_some z.master || is_some z.zonefile) ≡ true)

-- What each source of options keeps; the level is -1 where it is not set.
pub record IsSound (c : Config) : Type 0 where
  pub static : All IsComplete c.static_servers
  pub zones : All IsZone c.rpz_zones
  pub stored : IsStorage c.listen_address
  pub level : (c.log_level ≡ negsuc 0) ⊎ IsLevel c.log_level

-- A configuration with other texts and Booleans.
pub same-IsSound :
    (c d : Config)
    → IsSound c
    → c.static_servers ≡ d.static_servers
    → c.rpz_zones ≡ d.rpz_zones
    → c.listen_address ≡ d.listen_address
    → c.log_level ≡ d.log_level
    → IsSound d
same-IsSound c d h s z a l = record {
  static = subst (All IsComplete) s h.static;
  zones = subst (All IsZone) z h.zones;
  stored = subst IsStorage a h.stored;
  level = subst (λ n. (n ≡ negsuc 0) ⊎ IsLevel n) l h.level;
}

pub server-IsSound :
    (c : Config) (s : Server)
    → IsSound c
    → IsComplete s
    → IsSound (record c { static_servers = c.static_servers ++ (s ∷ []) })
server-IsSound c s h k = record {
  static = All-append IsComplete c.static_servers (s ∷ []) h.static (k, tt);
  zones = h.zones;
  stored = h.stored;
  level = h.level;
}

pub zone-IsSound :
    (c : Config) (z : RpzZone)
    → IsSound c
    → IsZone z
    → IsSound (record c { rpz_zones = c.rpz_zones ++ (z ∷ []) })
zone-IsSound c z h k = record {
  static = h.static;
  zones = All-append IsZone c.rpz_zones (z ∷ []) h.zones (k, tt);
  stored = h.stored;
  level = h.level;
}

pub address-IsSound :
    (c : Config) (a : SockAddr)
    → IsSound c
    → IsStorage a
    → IsSound (record c { listen_address = a })
address-IsSound c a h k = record { static = h.static; zones = h.zones; stored = k; level = h.level }

pub level-IsSound :
    (c : Config) (n : ℤ)
    → IsSound c
    → (n ≡ negsuc 0) ⊎ IsLevel n
    → IsSound (record c { log_level = n })
level-IsSound c n h k = record { static = h.static; zones = h.zones; stored = h.stored; level = k }
