-- ===== src/Unbound/Commands.antt =====
-- The commands sent to Unbound: `execute_unbound_command`, `remove_domain`, `get_forward_add_command`
-- and `add_domain` of src/dns_managers/unbound_manager.c. The result is whether the C function
-- returned 0.
use dnsconfd.Ip.{ip_text}
use dnsconfd.Prelude.{
  Bool, false, not, List, [], ◌∷◌, ◌++◌, Text, text_eq, codes, if◌then◌else◌, ◌==◌,
}
use dnsconfd.Server.{Server, tls, protocol_eq}
use dnsconfd.Env.{Env, World, ask, emit, ran}
use dnsconfd.Unbound.Zones.{endpoint}

unfoldable pub execute_unbound_command : Env → List Text → World → Bool × World
execute_unbound_command env argv w = let (fine, w1) = ask env w in (fine, emit (ran argv fine) w1)

abbrev pub flush_command : Text → List Text
flush_command domain = codes "unbound-control" ∷ codes "flush_zone" ∷ domain ∷ []

-- The root is never removed: it is pointed at an address where nothing answers.
abbrev pub remove_command : Text → List Text
remove_command domain =
    if not (text_eq domain (codes "."))
    then codes "unbound-control" ∷ codes "forward_remove" ∷ codes "+i" ∷ domain ∷ []
    else codes "unbound-control" ∷ codes "forward_add" ∷ codes "." ∷ codes "127.0.0.1" ∷ []

unfoldable pub remove_domain : Env → Text → World → Bool × World
remove_domain env domain w =
    let (fine, w1) = execute_unbound_command env (remove_command domain) w in
    if not fine then (false, w1) else execute_unbound_command env (flush_command domain) w1

-- Bit 0: the first server has no DNSSEC. Bit 1: it uses TLS.
abbrev pub flag_arguments : Server → List Text
flag_arguments s =
    if s.dnssec == 0
    then (if protocol_eq s.protocol tls then codes "+it" ∷ [] else codes "+i" ∷ [])
    else if protocol_eq s.protocol tls
    then codes "+t" ∷ []
    else []

unfoldable pub server_argument : Env → Server → Text
unfolding endpoint
server_argument env s = ip_text env.net s.address ++ endpoint s

unfoldable pub server_arguments : Env → List Server → List Text
unfolding server_argument
server_arguments env [] = []
server_arguments env (s ∷ servers) = server_argument env s ∷ server_arguments env servers

abbrev pub first_flags : List Server → List Text
first_flags [] = []
first_flags (s ∷ l) = flag_arguments s

-- The caller gives at least one server.
unfoldable pub get_forward_add_command : Env → Text → List Server → List Text
unfolding server_arguments
get_forward_add_command env domain servers =
    codes "unbound-control"
    ∷ codes "forward_add"
    ∷ (first_flags servers ++ (domain ∷ server_arguments env servers))

unfoldable pub add_domain : Env → Text → List Server → World → Bool × World
add_domain env domain servers w =
    let (fine, w1) = execute_unbound_command env (get_forward_add_command env domain servers) w in
    if not fine then (false, w1) else execute_unbound_command env (flush_command domain) w1
