-- ===== src/Server/Table.antt =====
-- `append_server` and `server_list_to_hash_table` of src/types/server_uri.c: the servers of each domain.
pub mod Domains
pub mod Laws
use dnsconfd.Prelude.{
  ◌≡◌, Bool, false, Option, none, some, List, [], ◌∷◌, ◌++◌, Text, text_eq, if◌then◌else◌, ◌>>=◌,
  is_nil,
}
use dnsconfd.Prelude.Int.{ℤ}
use dnsconfd.HashTable.{Table, lookup, insert, AllValues, map_values}
use dnsconfd.Network.{NetworkAddress, network_address_t_to_reverse_dns}
use dnsconfd.Server.{Server}
use dnsconfd.Server.Order.{compare_servers}

append_to : Option (List Server) → Table (List Server) → Text → Server → Table (List Server)
append_to none table domain server = insert domain (server ∷ []) table
append_to (some []) table domain server = insert domain (server ∷ []) table
append_to (some (s ∷ l)) table domain server = insert domain ((s ∷ l) ++ (server ∷ [])) table

unfoldable pub append_server : Table (List Server) → Text → Server → Table (List Server)
unfolding append_to
append_server table domain server = append_to (lookup domain table) table domain server

-- The loop over the routing domains of a server.
pub append_domains : Table (List Server) → List Text → Server → Table (List Server)
append_domains table [] server = table
append_domains table (d ∷ ds) server = append_domains (append_server table d server) ds server

-- The loop over its networks; `none` is the return of NULL.
append_networks : Table (List Server) → List NetworkAddress → Server → Option (Table (List Server))
append_networks table [] server = some table
append_networks table (n ∷ ns) server = network_address_t_to_reverse_dns n >>= λ zone.
    append_networks (append_server table zone server) ns server

-- The loop over the servers.
append_servers : Table (List Server) → List Server → Option (Table (List Server))
unfolding append_domains append_networks
append_servers table [] = some table
append_servers table (s ∷ ss) =
    append_networks (append_domains table s.routing_domains s) s.networks s >>= λ next.
    append_servers next ss

-- `g_list_sort` with a comparison function.
abbrev pub Sort : Type 0
Sort = (Server → Server → ℤ) → List Server → List Server

unfoldable pub server_list_to_hash_table : Sort → List Server → Option (Table (List Server))
unfolding append_servers
server_list_to_hash_table sort server_list =
    append_servers [] server_list >>= λ table. some (map_values (sort compare_servers) table)

-- What the table says of a domain, with no entry read as no server.
abbrev pub servers_at : Text → Table (List Server) → List Server
servers_at k table = elim (lookup k table) [ none ↦ [] | some l ↦ l ]

-- The server once for each time that the domain stands in the list.
abbrev pub occurrences : Text → List Text → Server → List Server
occurrences k [] s = []
occurrences k (d ∷ ds) s = (if text_eq d k then s ∷ [] else []) ++ occurrences k ds s

-- The names of the reverse zones; `none` if one network has none.
abbrev pub zones_of : List NetworkAddress → Option (List Text)
zones_of [] = some []
zones_of (n ∷ ns) =
    network_address_t_to_reverse_dns n >>= λ zone. zones_of ns >>= λ zones. some (zone ∷ zones)

-- The servers that ask for a domain, in the order of the list; `none` if a network has no zone.
abbrev pub carriers : Text → List Server → Option (List Server)
carriers k [] = some []
carriers k (s ∷ ss) = zones_of s.networks >>= λ zones. carriers k ss >>= λ rest.
    some ((occurrences k s.routing_domains s ++ occurrences k zones s) ++ rest)

-- Every entry has a server.
abbrev pub HasServers : Table (List Server) → Type 0
HasServers table = AllValues (λ l. is_nil l ≡ false) table
