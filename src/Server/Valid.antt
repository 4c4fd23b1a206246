-- ===== src/Server/Valid.antt =====
-- The servers that the rest of the program may rely on, and what the parsers of src/types/server_uri.c,
-- src/dbus_server.c and src/configuration_parsing/config_file.c set in them.
use dnsconfd.Prelude.{
  ℕ, ◌<◌, ◌≡◌, refl, subst, Bool, true, false, Option, none, some, [], ◌∷◌, ◌++◌, Text, arith, All,
  All-append, length, is_nil, if◌then◌else◌, ◌>>=◌,
}
use dnsconfd.Ip.{SockAddr}
use dnsconfd.Ip.Laws.{IsAddress, with_port}
use dnsconfd.Network.{NetworkAddress}
use dnsconfd.Network.Parse.{IsNetwork}
use dnsconfd.Server.{Server, Protocol, server_uri_t_init, protocols_end, protocol_eq, ifnamsiz}

-- A server that the rest of the program may rely on.
pub record IsServer (s : Server) : Type 0 where
  pub addressed : IsAddress s.address
  pub networks_fit : All IsNetwork s.networks
  pub interface_fits : length s.interface < ifnamsiz
  pub supported : protocol_eq s.protocol protocols_end ≡ false

-- A server that can be used: the same with a port and a domain.
pub record IsComplete (s : Server) : Type 0 where
  pub server : IsServer s
  pub port_pos : 0 < s.address.port
  pub has_domain : is_nil s.routing_domains ≡ false

-- A server whose address, networks, interface and protocol are the same.
pub same-IsServer :
    (s t : Server)
    → IsServer s
    → s.address ≡ t.address
    → s.networks ≡ t.networks
    → s.interface ≡ t.interface
    → s.protocol ≡ t.protocol
    → IsServer t
same-IsServer s t h a n i p = record {
  addressed = subst IsAddress a h.addressed;
  networks_fit = subst (All IsNetwork) n h.networks_fit;
  interface_fits = subst (λ x. length x < ifnamsiz) i h.interface_fits;
  supported = subst (λ x. protocol_eq x protocols_end ≡ false) p h.supported;
}

pub with_port-IsServer :
    (s : Server) (p : ℕ)
    → p < 65536
    → IsServer s
    → IsServer (record s { address = record s.address { port = p } })
with_port-IsServer s p l h = record {
  addressed = with_port s.address p l h.addressed;
  networks_fit = h.networks_fit;
  interface_fits = h.interface_fits;
  supported = h.supported;
}

pub with_address-IsServer :
    (s : Server) (a : SockAddr) → IsAddress a → IsServer s → IsServer (record s { address = a })
with_address-IsServer s a l h = record {
  addressed = l;
  networks_fit = h.networks_fit;
  interface_fits = h.interface_fits;
  supported = h.supported;
}

pub with_protocol-IsServer :
    (s : Server) (p : Protocol)
    → protocol_eq p protocols_end ≡ false
    → IsServer s
    → IsServer (record s { protocol = p })
with_protocol-IsServer s p l h = record {
  addressed = h.addressed;
  networks_fit = h.networks_fit;
  interface_fits = h.interface_fits;
  supported = l;
}

pub with_interface-IsServer :
    (s : Server) (i : Text)
    → length i < ifnamsiz
    → IsServer s
    → IsServer (record s { interface = i })
with_interface-IsServer s i l h = record {
  addressed = h.addressed;
  networks_fit = h.networks_fit;
  interface_fits = l;
  supported = h.supported;
}

pub with_network-IsServer :
    (s : Server) (n : NetworkAddress)
    → IsNetwork n
    → IsServer s
    → IsServer (record s { networks = s.networks ++ (n ∷ []) })
with_network-IsServer s n l h = record {
  addressed = h.addressed;
  networks_fit = All-append IsNetwork s.networks (n ∷ []) h.networks_fit (l, tt);
  interface_fits = h.interface_fits;
  supported = h.supported;
}

pub first-IsServer :
    (a : SockAddr) → IsAddress a → IsServer (record server_uri_t_init { address = a })
first-IsServer a h = record {
  addressed = h;
  networks_fit = tt;
  interface_fits = omega arith;
  supported = refl;
}

-- If there is a result, it is one that the rest of the program may rely on.
abbrev pub Fills : Option Server → Type 0
Fills none = Unit
Fills (some s) = IsServer s

pub bind-Fills :
    (o : Option Server) (f : Server → Option Server)
    → Fills o
    → ((s : Server) → IsServer s → Fills (f s))
    → Fills (o >>= f)
bind-Fills none f h g = tt
bind-Fills (some s) f h g = g s h

pub if-Fills :
    (b : Bool) (x y : Option Server)
    → (b ≡ true → Fills x)
    → (b ≡ false → Fills y)
    → Fills (if b then x else y)
if-Fills true x y f g = f refl
if-Fills false x y f g = g refl
