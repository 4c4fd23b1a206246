-- ===== src/Examples/Json.antt =====
-- Servers as JSON.
use dnsconfd.Prelude.{◌≡◌, refl, inl, none, some, Option, Text, codes, All, arith, ℕ}
use dnsconfd.Ip.{SockAddr, cleared}
use dnsconfd.Ip.Laws.{cleared-IsStorage, cleared-IsAddress4}
use dnsconfd.Server.{Server}
use dnsconfd.Server.Valid.{IsServer}
use dnsconfd.Json.{Json, array, no_items, item}
use dnsconfd.Server.Json.{server_of_json, server_uri_to_json, server_uri_t_list_from_json}
use dnsconfd.Server.Json.Laws.{server_uri_t_list_from_json-All}
use dnsconfd.Server.Json.Members.{IsEcho}
use dnsconfd.Server.Json.Echo.{server_of_json-server_uri_to_json}
use dnsconfd.Server.Json.Null.{server_of_json-null}
use dnsconfd.Examples.Addresses.{inet_toy, inet_toy-InetLaws}
use dnsconfd.Examples.Data.{address4-IsAddress, plain, secure}

abbrev memory : ℕ → SockAddr
memory n = cleared

abbrev pub bound : Server
bound = record secure { interface = codes "eth0" }

pub bound-IsServer : IsServer bound
bound-IsServer = record {
  addressed = cleared-IsAddress4 _ refl (ground arith);
  networks_fit = (
    record {
      addressed = address4-IsAddress;
      prefix_le = omega arith;
      prefix4_le = λ e. omega arith;
    },
    tt,
  );
  interface_fits = omega arith;
  supported = refl;
}

server_of_json-server_uri_to_json_example :
    (t : Server) × (server_of_json inet_toy memory (server_uri_to_json inet_toy bound) ≡ some t)
    × IsEcho t bound
server_of_json-server_uri_to_json_example =
    server_of_json-server_uri_to_json inet_toy-InetLaws memory bound (codes "dns.lan")
      bound-IsServer refl refl (omega arith, omega arith) (omega arith)

server_of_json-null_example :
    server_of_json inet_toy memory (server_uri_to_json inet_toy plain) ≡ none
server_of_json-null_example = server_of_json-null inet_toy memory plain (inl refl)

abbrev loads : Text → Option Json
loads text = some (array (item (server_uri_to_json inet_toy bound) no_items))

server_uri_t_list_from_json-All_example :
    All IsServer (server_uri_t_list_from_json loads inet_toy memory (codes "[]"))
server_uri_t_list_from_json-All_example =
    server_uri_t_list_from_json-All inet_toy-InetLaws memory (λ n. cleared-IsStorage) loads
      (codes "[]")
