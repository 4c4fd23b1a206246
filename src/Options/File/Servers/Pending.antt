-- ===== src/Options/File/Servers/Pending.antt =====
-- The server that `parse_static_servers` of src/configuration_parsing/config_file.c is reading.
use dnsconfd.Prelude.{
  ◌≤◌, ◌<◌, ◌≡◌, refl, subst, false, Option, none, some, List, Text, arith, All, length,
}
use dnsconfd.Ip.{SockAddr}
use dnsconfd.Ip.Laws.{IsStorage, cleared-IsStorage}
use dnsconfd.Network.Parse.{IsNetwork}
use dnsconfd.Server.{Server, server_uri_t_init, protocols_end, protocol_eq, ifnamsiz}
use dnsconfd.Config.{Config}
use dnsconfd.Config.Sound.{IsSound}
use dnsconfd.Yaml.{Event}
use dnsconfd.Options.File.Servers.{parse_priority_str, parse_port_str, Reading}

-- A server that is not finished: it may lack its address.
pub record IsPending (s : Server) : Type 0 where
  pub stored : IsStorage s.address
  pub networks_fit : All IsNetwork s.networks
  pub interface_fits : length s.interface < ifnamsiz
  pub supported : protocol_eq s.protocol protocols_end ≡ false

-- The same address, networks, interface and protocol.
pub same-IsPending :
    (s t : Server)
    → IsPending s
    → s.address ≡ t.address
    → s.networks ≡ t.networks
    → s.interface ≡ t.interface
    → s.protocol ≡ t.protocol
    → IsPending t
same-IsPending s t h a n i p = record {
  stored = subst IsStorage a h.stored;
  networks_fit = subst (All IsNetwork) n h.networks_fit;
  interface_fits = subst (λ x. length x < ifnamsiz) i h.interface_fits;
  supported = subst (λ x. protocol_eq x protocols_end ≡ false) p h.supported;
}

pub with_address-IsPending :
    (s : Server) (a : SockAddr) → IsStorage a → IsPending s → IsPending (record s { address = a })
with_address-IsPending s a l h = record {
  stored = l;
  networks_fit = h.networks_fit;
  interface_fits = h.interface_fits;
  supported = h.supported;
}

pub port_str-IsStorage :
    (t : Text) (a b : SockAddr) → parse_port_str t a ≡ some b → IsStorage a → IsStorage b
unfolding parse_port_str
port_str-IsStorage t a b e h = ground arith

pub priority_str-IsPending :
    (value : Text) (s t : Server) → parse_priority_str value s ≡ some t → IsPending s → IsPending t
unfolding parse_priority_str
priority_str-IsPending value s t e h =
    same-IsPending s t h (ground arith) (ground arith) (ground arith) (ground arith)

pub first-IsPending : IsPending server_uri_t_init
first-IsPending = record {
  stored = cleared-IsStorage;
  networks_fit = tt;
  interface_fits = omega arith;
  supported = refl;
}

abbrev pub Maybe : Option Server → Type 0
Maybe none = Unit
Maybe (some s) = IsPending s

-- The configuration so far is sound, and the current server well formed.
abbrev pub Reads : Reading → Type 0
Reads r = IsSound r.config × Maybe r.current_server

-- The configuration is sound, and no event has been given back.
abbrev pub Reached : List Event → Config × List Event → Type 0
Reached events (config, rest) = IsSound config × (length rest ≤ length events)

abbrev pub ReadsOn : List Event → Reading × List Event → Type 0
ReadsOn events (r, rest) = Reads r × (length rest ≤ length events)
