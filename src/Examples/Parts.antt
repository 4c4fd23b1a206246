-- ===== src/Examples/Parts.antt =====
-- The theorems about the parts of the program, on concrete inputs.
use mathlib.Core.List.{reverse, Perm}
use dnsconfd.Prelude.{
  ◌⊎◌, All, ◌≡◌, ◌≢◌, ◌<◌, refl, true, false, none, some, List, [], ◌∷◌, ◌++◌, Text, text_eq, codes,
  is_nil, arith, keep, if◌then◌else◌,
}
use dnsconfd.HashTable.{Table, lookup, HasDistinctKeys}
use dnsconfd.Ip.{inet, cleared, are_ips_equal, parse_ip_str}
use dnsconfd.Ip.Laws.{cleared-IsStorage}
use dnsconfd.Number.{strtol}
use dnsconfd.Network.{
  split_slash, NetworkAddress, network_address_t_from_string, network_address_t_to_reverse_dns,
  network_address_to_string,
}
use dnsconfd.Network.Parse.{IsNetwork, from_string-IsNetwork, from_string-to_string}
use dnsconfd.Network.Reverse.{reverse_zone, to_reverse_dns-reverse_zone}
use dnsconfd.Server.{Server, protocol_from_nstring}
use dnsconfd.Server.Order.{compare_servers}
use dnsconfd.Server.Table.{server_list_to_hash_table, carriers, HasServers}
use dnsconfd.Server.Table.Laws.{server_list_to_hash_table_lem}
use dnsconfd.Server.Sorting.{insertion_sort, insertion_sort-SortLaws}
use dnsconfd.Server.Zones.{table_total}
use dnsconfd.Config.{prefer}
use dnsconfd.Env.{World}
use dnsconfd.Unbound.Select.{get_used_servers}
use dnsconfd.Unbound.Select.Ranks.{is_best}
use dnsconfd.Unbound.Select.Best.{used_servers-best}
use dnsconfd.Unbound.Zones.{Output, generate_forward_zones}
use dnsconfd.Unbound.Zones.Printed.{zones_text, generate_forward_zones-zones_text}
use dnsconfd.Unbound.Commands.{get_forward_add_command}
use dnsconfd.Unbound.Compare
use dnsconfd.Unbound.Compare.Same.{compare_servers-get_forward_add_command}
use dnsconfd.Unbound.Update.{apply_changes}
use dnsconfd.Unbound.Update.Plan.{run_all, additions, old_removals, apply_changes-run}
use dnsconfd.Unbound.ResolvConf.{member, searches_of_table}
use dnsconfd.Unbound.ResolvConf.Searches.{IsDistinct, used_asks, searches_of_table_lem}
use dnsconfd.Fsm.Actions.{next_serial}
use dnsconfd.Fsm.Invariant.{next_serial_lem}
use dnsconfd.Daemon.Update.{
  Parsed, error, parsed, parse_servers, parse_server, parse_address, parse_fields, parse_priority,
  parse_protocol, parse_interface, parse_dnssec, parse_domains, save_domains,
}
use dnsconfd.Server.Valid.{IsComplete}
use dnsconfd.Daemon.Update.Servers.{NoConflict, parse_servers-IsComplete}
use dnsconfd.Examples.Addresses.{inet_toy, decode, inet_toy-InetLaws}
use dnsconfd.Examples.Data.{
  dict, dict-HasBytes, host, address4-IsAddress, net24, plain, secure, servers, servers-HasZones,
  table, table_built, env,
}

abbrev quiet : World
quiet = record { calls = 0; log = [] }

net24-IsNetwork : IsNetwork net24
net24-IsNetwork = record {
  addressed = address4-IsAddress;
  prefix_le = omega arith;
  prefix4_le = λ e. omega arith;
}

table-HasServers : HasServers table
table-HasServers = (refl, (refl, (refl, tt)))

used_servers-best_example :
    (c : List Server) × (carriers (codes ".") servers ≡ some c)
    × Perm (secure ∷ plain ∷ []) c
    × (get_used_servers (secure ∷ plain ∷ []) prefer (codes ".")
        ≡ some (
            reverse
              (keep (is_best prefer (codes ".") (secure ∷ plain ∷ [])) (secure ∷ plain ∷ []))))
used_servers-best_example =
    used_servers-best insertion_sort insertion_sort-SortLaws servers table (codes ".")
      (secure ∷ plain ∷ []) prefer (ground arith) table_built (unfold lookup text_eq in refl)

server_list_to_hash_table_lem_example :
    HasDistinctKeys table
    × ((k : Text)
        → (l : List Server) × (carriers k servers ≡ some l)
          × (lookup k table ≡ (if is_nil l then none else some (insertion_sort compare_servers l))))
server_list_to_hash_table_lem_example =
    server_list_to_hash_table_lem insertion_sort servers table table_built

table_total_example :
    (t : Table (List Server)) × (server_list_to_hash_table insertion_sort servers ≡ some t)
    × HasServers t
table_total_example = table_total insertion_sort-SortLaws servers servers-HasZones

apply_changes-run_example :
    apply_changes env (some table) [] quiet
    ≡ run_all env (additions env (some table) [] ++ old_removals [] (some table)) quiet
apply_changes-run_example = apply_changes-run env (some table) [] quiet

same_servers :
    Compare.compare_servers (secure ∷ []) (record secure { search_domains = [] } ∷ []) ≡ false
unfolding Compare.compare_servers text_eq
same_servers = refl

compare_servers-get_forward_add_command_example :
    get_forward_add_command env (codes ".") (secure ∷ [])
    ≡ get_forward_add_command env (codes ".") (record secure { search_domains = [] } ∷ [])
compare_servers-get_forward_add_command_example =
    compare_servers-get_forward_add_command env (codes ".") (secure ∷ [])
      (record secure { search_domains = [] } ∷ []) same_servers

searches_of_table_lem_example :
    (result : List Text) × (searches_of_table prefer [] table ≡ some result)
    × IsDistinct result
    × ((k : Text) → member k result ≡ used_asks prefer k table)
searches_of_table_lem_example = searches_of_table_lem prefer table table-HasServers

from_string-to_string_example :
    (t : Text) × (m : NetworkAddress) × (network_address_to_string inet_toy net24 ≡ some t)
    × (network_address_t_from_string inet_toy cleared t ≡ some m)
    × (are_ips_equal m.address net24.address ≡ true)
    × (m.prefix ≡ net24.prefix)
from_string-to_string_example =
    from_string-to_string inet_toy-InetLaws net24 cleared net24-IsNetwork

abbrev written : Text
written = (4 ∷ 240 ∷ 216 ∷ 49 ∷ 48 ∷ []) ++ codes "/24"

written_read : network_address_t_from_string inet_toy cleared written ≡ some net24
unfolding network_address_t_from_string split_slash strtol parse_ip_str decode
written_read = refl

from_string-IsNetwork_example : IsNetwork net24
from_string-IsNetwork_example =
    from_string-IsNetwork inet_toy-InetLaws cleared written net24 cleared-IsStorage written_read

to_reverse_dns-reverse_zone_example :
    network_address_t_to_reverse_dns net24 ≡ reverse_zone inet net24.address 24
to_reverse_dns-reverse_zone_example = to_reverse_dns-reverse_zone net24 refl refl (ground arith)

next_serial_lem_example :
    (0 < next_serial 0xffff_ffff)
    × (next_serial 0xffff_ffff < 0x1_0000_0000)
    × (next_serial 0xffff_ffff ≢ 0xffff_ffff)
next_serial_lem_example = next_serial_lem 0xffff_ffff (omega arith)

abbrev the_servers : Parsed (List Server) → List Server
the_servers (error e) = []
the_servers (parsed l) = l

dict_read :
    parse_servers host (dict ∷ []) [] ≡ parsed (the_servers (parse_servers host (dict ∷ []) []))
unfolding parse_servers parse_server parse_address parse_fields parse_priority parse_protocol
    parse_interface parse_dnssec parse_domains save_domains protocol_from_nstring text_eq
dict_read = refl

parse_servers-IsComplete_example :
    All IsComplete (the_servers (parse_servers host (dict ∷ []) []))
    × NoConflict (the_servers (parse_servers host (dict ∷ []) []))
parse_servers-IsComplete_example =
    parse_servers-IsComplete host inet_toy-InetLaws (λ n. cleared-IsStorage) (dict ∷ [])
      (the_servers (parse_servers host (dict ∷ []) [])) dict-HasBytes dict_read

generate_forward_zones-zones_text_example :
    (o : Output) × (generate_forward_zones env table prefer [] quiet ≡ some o)
    × ((o.fine ≡ false) ⊎ (o.text ≡ [] ++ zones_text env prefer table false))
generate_forward_zones-zones_text_example =
    generate_forward_zones-zones_text env table prefer [] quiet table-HasServers
