-- ===== src/Examples/Client.antt =====
-- Servers as URIs, and the update command.
use mathlib.Core.List.{List}
use dnsconfd.Prelude.{ℕ, ◌≡◌, refl, none, some, [], ◌∷◌, codes, arith}
use dnsconfd.Ip.{SockAddr, cleared}
use dnsconfd.Ip.Laws.{cleared-IsStorage}
use dnsconfd.Server.{Server}
use dnsconfd.Server.Uri.{Uri, UriParser, server_uri_t_init_from_string}
use dnsconfd.Server.Uri.Laws.Filled.{Accepts}
use dnsconfd.Server.Uri.Laws.{server_uri_t_init_from_string-Accepts}
use dnsconfd.Daemon.Update.{parsed, parse_server, with_defaults}
use dnsconfd.Client.Update.{
  Readers, UpdateOption, mode_option, argument, parse_update_command, server_dict, Signal,
}
use dnsconfd.Client.Update.Fields.{IsSame}
use dnsconfd.Client.Update.Sent.{parse_server-server_dict}
use dnsconfd.Client.Update.Parsing.{Gathers, parse_update_command-Gathers}
use dnsconfd.Examples.Addresses.{inet_toy, inet_toy-InetLaws}
use dnsconfd.Examples.Data.{host}
use dnsconfd.Examples.Json.{bound, bound-IsServer}

abbrev memory : ℕ → SockAddr
memory n = cleared

abbrev tls_uri : Uri
tls_uri = record {
  scheme = codes "dns+tls";
  host_text = 4 ∷ codes "1234";
  port_text = codes "853";
  after_port = codes "?name=dns.lan";
  query = codes "name=dns.lan";
}

abbrev uris : UriParser
uris = record {
  parse_single_uri = λ t. some tls_uri;
  dissect_query =
      λ q. some ((codes "name", some (codes "dns.lan")) ∷ (codes "dnssec", some (codes "0")) ∷ []);
}

server_uri_t_init_from_string-Accepts_example :
    Accepts (server_uri_t_init_from_string uris inet_toy memory (codes "dns+tls://192.168.1.3"))
server_uri_t_init_from_string-Accepts_example =
    server_uri_t_init_from_string-Accepts inet_toy-InetLaws memory (λ n. cleared-IsStorage) uris
      (codes "dns+tls://192.168.1.3")

abbrev readers : Readers
readers = record { net = inet_toy; memory = memory; loads = λ t. none; uris = uris }

abbrev options : List UpdateOption
options = mode_option (codes "prefer") ∷ argument (codes "dns+tls://192.168.1.3") ∷ []

parse_update_command-Gathers_example : Gathers (parse_update_command readers options)
parse_update_command-Gathers_example =
    parse_update_command-Gathers readers inet_toy-InetLaws (λ n. cleared-IsStorage) options

parse_server-server_dict_example :
    (t : Server) × (parse_server host (server_dict inet_toy bound) ≡ parsed t)
    × IsSame t (with_defaults bound)
parse_server-server_dict_example =
    parse_server-server_dict host inet_toy-InetLaws bound bound-IsServer (omega arith)
      ((refl, refl, refl), ((refl, refl, refl), tt)) ((refl, refl, refl), ((refl, refl, refl), tt))

abbrev signals : List Signal
signals =
    record {
      interface = codes "com.redhat.dnsconfd.Manager";
      changed = (codes "configuration_serial", 7) ∷ [];
    }
    ∷ []
