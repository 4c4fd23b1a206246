-- ===== src/Unbound/Zones.antt =====
-- The text of the configuration file of Unbound: `server_to_unbound_string`, `generate_forward_zones`,
-- `generate_rpz_zones` and `generate_listen_address` of src/dns_managers/unbound_manager.c.
-- Each returns whether it succeeded, the text behind what was written before, and the world.
pub mod Printed
use dnsconfd.Ip.{c_string, ip_text}
use dnsconfd.Prelude.{
  Bool, true, false, not, ◌||◌, Option, none, some, List, [], ◌∷◌, ◌++◌, Text, text_eq, codes,
  if◌then◌else◌, ◌==◌, ◌>>=◌,
}
use dnsconfd.HashTable.{Table}
use dnsconfd.Ip.{SockAddr, Inet, ip_to_str}
use dnsconfd.Number.{decimal}
use dnsconfd.Server.{Server, tls, protocol_eq}
use dnsconfd.Config.{Config, Mode, RpzZone}
use dnsconfd.Env.{Env, World, ask}
use dnsconfd.Unbound.Select.{get_used_servers}

abbrev name_suffix : Option Text → Text
name_suffix none = []
name_suffix (some name) = b'#' ∷ name

-- The port, and for TLS the name that the certificate is to have.
unfoldable pub endpoint : Server → Text
endpoint s =
    if protocol_eq s.protocol tls
    then ((if not (s.address.port == 0) then b'@' ∷ decimal s.address.port else codes "@853")
        ++ name_suffix s.name)
    else if not (s.address.port == 0)
    then b'@' ∷ decimal s.address.port
    else []

unfoldable pub server_to_unbound_string : Env → Server → Text
unfolding endpoint
server_to_unbound_string env s =
    codes "\tforward-addr: " ++ (ip_text env.net s.address ++ (endpoint s ++ codes "\n"))

pub record Output : Type 0 where
  pub fine : Bool
  pub text : Text
  pub world : World

-- The loop over the used servers of one zone; each line is followed by a check of the stream.
unfoldable pub forward_addresses : Env → List Server → Text → World → Output
unfolding server_to_unbound_string
forward_addresses env [] text w = record { fine = true; text = text; world = w }
forward_addresses env (s ∷ servers) text w =
    let (fine, w1) = ask env w in
    let text1 = text ++ server_to_unbound_string env s in
    let rest = forward_addresses env servers text1 w1 in
    if fine then rest else record { fine = false; text = text1; world = w1 }

abbrev pub uses_tls : List Server → Bool
uses_tls [] = false
uses_tls (s ∷ l) = protocol_eq s.protocol tls || uses_tls l

abbrev pub zone_start : Text → Text
zone_start key = codes "forward-zone:\n\tname: \"" ++ (key ++ codes "\"\n")

abbrev pub zone_end : List Server → Text
zone_end used =
    codes "\tforward-tls-upstream: "
    ++ ((if uses_tls used then codes "yes" else codes "no") ++ codes "\n")

-- The zone that keeps every other name from being resolved.
abbrev pub root_fallback : Text
root_fallback = codes "forward-zone:\n\tname: \".\"\n\tforward-addr: \"127.0.0.1\"\n"

abbrev pub finish_zones : Env → Bool → Text → World → Output
finish_zones env root_present text w =
    let (fine, w1) = ask env w in
    record {
      fine = fine;
      text = (if root_present then text else text ++ root_fallback);
      world = w1;
    }

-- One zone that has used servers.
abbrev pub one_zone : Env → Text → List Server → Text → World → Output
one_zone env key used text w =
    let o = forward_addresses env used (text ++ zone_start key) w in
    if o.fine then record o { text = o.text ++ zone_end used } else o

-- The loop over the table; `none` is the access through a NULL list.
unfoldable pub zones_loop : Env → Mode → Table (List Server) → Bool → Text → World → Option Output
zones_loop env mode [] root_present text w = some (finish_zones env root_present text w)
zones_loop env mode ((key, servers) ∷ m) root_present text w =
    get_used_servers servers mode key >>= λ used. elim used [
      | [] ↦ zones_loop env mode m root_present text w
      | s ∷ l ↦
          let o = one_zone env key (s ∷ l) text w in
          let rest =
            zones_loop env mode m (root_present || text_eq key (codes ".")) o.text o.world in
          if o.fine then rest else some o
    ]

unfoldable pub generate_forward_zones :
    Env → Table (List Server) → Mode → Text → World → Option Output
unfolding zones_loop
generate_forward_zones env table mode text w = zones_loop env mode table false text w

abbrev master_lines : Option Text → Text
master_lines none = []
master_lines (some master) =
    codes "\tmaster: " ++ (master ++ (codes "\n\tallow-notify: " ++ (master ++ codes "\n")))

abbrev zonefile_line : Option Text → Text
zonefile_line none = []
zonefile_line (some zonefile) = codes "\tzonefile: \"" ++ (zonefile ++ codes "\"\n")

unfoldable pub rpz_text : List RpzZone → Text
rpz_text [] = []
rpz_text (zone ∷ zones) =
    codes "rpz:\n\tname: \""
    ++ (c_string zone.name
        ++ (codes "\"\n"
            ++ (master_lines zone.master ++ (zonefile_line zone.zonefile ++ rpz_text zones))))

unfoldable pub generate_rpz_zones : Env → List RpzZone → Text → World → Output
unfolding rpz_text
generate_rpz_zones env zones text w =
    let (fine, w1) = ask env w in record { fine = fine; text = text ++ rpz_text zones; world = w1 }

unfoldable pub generate_listen_address : Env → Config → Text → World → Output
generate_listen_address env config text w =
    let (fine, w1) = ask env w in
    record {
      fine = fine;
      text =
          text
          ++ (codes "\tinterface: "
              ++ (ip_text env.net config.listen_address
                  ++ codes "\n\tdo-not-query-address: 127.0.0.1/8\n"));
      world = w1;
    }
