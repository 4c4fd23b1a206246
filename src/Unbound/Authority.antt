-- ===== src/Unbound/Authority.antt =====
-- The choice of the CA bundle: `effective_ca_from_uris`, `effective_ca_from_config` and
-- `get_effective_ca` of src/dns_managers/unbound_manager.c.
use dnsconfd.Ip.{c_string}
use dnsconfd.Prelude.{ℕ, Bool, ◌&&◌, Option, none, some, List, [], ◌∷◌, Text, if◌then◌else◌, ◌==◌}
use dnsconfd.Prelude.Int.{ℤ, ltb_ℤ}
use dnsconfd.HashTable.{Table}
use dnsconfd.Server.{Server, tls, protocol_eq}
use dnsconfd.Config.{Config, Mode}
use dnsconfd.Env.{Env, World, tick}
use dnsconfd.Unbound.Select.{is_skipped}

-- `highest_prio` and `effective_ca`, once the latter is set.
abbrev pub Choice : Type 0
Choice = Option (ℤ × Text)

abbrev replaces : Server → Choice → Bool
replaces s none = protocol_eq s.protocol tls
replaces s (some (highest_prio, ca)) = ltb_ℤ s.priority highest_prio && protocol_eq s.protocol tls

-- The body of the inner loop.
consider_ca : Option Text → Mode → Text → Server → Choice → Choice
consider_ca none mode key s choice = choice
consider_ca (some ca) mode key s choice =
    if is_skipped mode key s
    then choice
    else if replaces s choice
    then some (s.priority, ca)
    else choice

consider_servers : Mode → Text → List Server → Choice → Choice
unfolding consider_ca
consider_servers mode key [] choice = choice
consider_servers mode key (s ∷ l) choice =
    consider_servers mode key l (consider_ca s.certification_authority mode key s choice)

consider_table : Mode → Table (List Server) → Choice → Choice
unfolding consider_servers
consider_table mode [] choice = choice
consider_table mode ((key, l) ∷ m) choice =
    consider_table mode m (consider_servers mode key l choice)

abbrev chosen_ca : Choice → Option Text
chosen_ca none = none
chosen_ca (some (p, ca)) = some ca

unfoldable pub effective_ca_from_uris : Table (List Server) → Mode → Option Text
unfolding consider_table
effective_ca_from_uris table mode = chosen_ca (consider_table mode table none)

abbrev cons_first : ℕ → List Text → List Text
cons_first c [] = (c ∷ []) ∷ []
cons_first c (t ∷ ts) = (c ∷ t) ∷ ts

-- The pieces that `strsep(&text, " ")` returns one after the other.
unfoldable pub split_spaces : Text → List Text
split_spaces [] = [] ∷ []
split_spaces (c ∷ s) =
    let pieces = split_spaces s in if c == 32 then [] ∷ pieces else cons_first c pieces

-- The first path that can be read.
first_readable : Env → List Text → World → Option Text × World
first_readable env [] w = (none, w)
first_readable env (path ∷ paths) w =
    let rest = first_readable env paths (tick w) in
    if env.readable w.calls path then (some path, tick w) else rest

unfoldable pub effective_ca_from_config : Env → Config → World → Option Text × World
unfolding split_spaces first_readable
effective_ca_from_config env config w =
    first_readable env (split_spaces (c_string config.certification_authority)) w

abbrev ca_or_config : Env → Option Text → Config → World → Option Text × World
ca_or_config env none config w = effective_ca_from_config env config w
ca_or_config env (some ca) config w = (some ca, w)

abbrev from_table : Option (Table (List Server)) → Mode → Option Text
from_table none mode = none
from_table (some table) mode = effective_ca_from_uris table mode

unfoldable pub get_effective_ca :
    Env → Option (Table (List Server)) → Mode → Config → World → Option Text × World
get_effective_ca env domain_to_servers mode config w =
    ca_or_config env (from_table domain_to_servers mode) config w
