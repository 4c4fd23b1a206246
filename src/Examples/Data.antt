-- ===== src/Examples/Data.antt =====
-- Servers, a configuration and an environment.
use dnsconfd.Prelude.{
  false, ℕ, ◌≡◌, refl, true, none, some, List, [], ◌∷◌, text_eq, codes, All, arith,
}
use dnsconfd.Prelude.Int.{pos, to_int32, ◌-ℤ◌}
use dnsconfd.Ip.{SockAddr, inet, cleared}
use dnsconfd.Ip.Laws.{IsAddress}
use dnsconfd.Network.{NetworkAddress, network_address_t_to_reverse_dns, reverse_dns_ipv4}
use dnsconfd.Number.{decimal}
use dnsconfd.Server.Order.{compare_servers}
use dnsconfd.Server.{Server, server_uri_t_init, tls}
use dnsconfd.HashTable.{Table, map_values, lookup, insert}
use dnsconfd.Server.Table.{server_list_to_hash_table, append_server}
use dnsconfd.Server.Zones.{HasZones}
use dnsconfd.Server.Sorting.{insertion_sort}
use dnsconfd.Config.{Config, unset, on}
use dnsconfd.Env.{Env}
use dnsconfd.Daemon.Update.{Host, ServerDict}
use dnsconfd.Daemon.Update.Laws.{HasBytes}
use dnsconfd.Examples.Addresses.{inet_toy}

abbrev pub address4 : ℕ → SockAddr
address4 n = record cleared { family = inet; sin_addr = 192 ∷ 168 ∷ 1 ∷ n ∷ [] }

-- 192.168.1.0/24
abbrev pub net24 : NetworkAddress
net24 = record { address = address4 0; prefix = 24 }

abbrev pub plain : Server
plain = record server_uri_t_init {
  address = address4 3;
  routing_domains = codes "." ∷ [];
  search_domains = codes "lan" ∷ [];
}

abbrev pub secure : Server
secure = record server_uri_t_init {
  address = address4 2;
  priority = pos 50;
  protocol = tls;
  dnssec = 1;
  name = some (codes "dns.lan");
  routing_domains = codes "." ∷ codes "lan" ∷ [];
  search_domains = codes "lan" ∷ codes "corp" ∷ [];
  networks = net24 ∷ [];
}

abbrev pub servers : List Server
servers = plain ∷ secure ∷ []

abbrev pub config : Config
config = record {
  file_log = none;
  resolv_conf_path = some (codes "/etc/resolv.conf");
  resolver_options = some (codes "edns0 trust-ad");
  config_file = none;
  certification_authority = some (codes "/ca1 /ca2");
  static_servers = servers;
  rpz_zones = [];
  listen_address = address4 1;
  log_level = pos 7;
  stderr_log = on;
  syslog_log = unset;
  prioritize_wire = on;
  dnssec_enabled = on;
}

-- Every call succeeds, and resolv.conf has a content.
abbrev pub env : Env
env = record {
  net = inet_toy;
  sort = insertion_sort;
  succeeds = λ n. true;
  readable = λ n path. true;
  strip = λ t. t;
  contents = λ n path. some (codes "nameserver 10.0.0.1\n");
}

pub address4-IsAddress : IsAddress (address4 0)
address4-IsAddress = record {
  known = λ e. cc;
  size4 = refl;
  bytes4 = ground arith;
  size6 = refl;
  bytes6 = ground arith;
  port_fits = omega arith;
}

pub servers-HasZones : All HasZones servers
servers-HasZones = (tt, ((address4-IsAddress, tt), tt))

-- The two servers of the root in order, and the one of the other domain and of the reverse zone.
abbrev pub table : Table (List Server)
table =
    (codes ".", secure ∷ plain ∷ [])
    ∷ (codes "lan", secure ∷ [])
    ∷ (codes "1.168.192.in-addr.arpa", secure ∷ [])
    ∷ []

pub table_built : server_list_to_hash_table insertion_sort servers ≡ some table
unfolding server_list_to_hash_table network_address_t_to_reverse_dns map_values append_server lookup
    insert text_eq reverse_dns_ipv4 decimal insertion_sort compare_servers to_int32 ◌-ℤ◌
table_built = refl

abbrev pub host : Host
host = record {
  net = inet_toy;
  idn = λ t. some t;
  is_directory = λ t. false;
  memory = λ n. cleared;
}

-- The server 192.168.1.9 for a domain, by its bytes.
abbrev pub dict : ServerDict
dict = record {
  address_string = none;
  address_bytes = some (192 ∷ 168 ∷ 1 ∷ 9 ∷ []);
  port = none;
  priority = some (pos 100);
  protocol = some (codes "dns+tls");
  interface = some (codes "eth0");
  dnssec = some true;
  ca = none;
  name = none;
  routing_domains = some (codes "corp" ∷ []);
  search_domains = none;
  networks = none;
}

pub dict-HasBytes : All (λ d. HasBytes d.address_bytes) (dict ∷ [])
dict-HasBytes = (ground arith, tt)
