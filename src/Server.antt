-- ===== src/Server.antt =====
-- src/types/server_uri.h and the parts of src/types/server_uri.c that every source of servers uses.
pub mod Order
pub mod Table
pub mod Sorting
pub mod Zones
pub mod Valid
pub mod Json
pub mod Uri
use dnsconfd.Prelude.{
  ℕ, suc, ◌+◌, ◌-◌, ◌≡◌, refl, Bool, true, false, not, ◌&&◌, Option, none, some, List, [], ◌∷◌,
  ◌++◌, Text, text_eq, codes, if◌then◌else◌, ◌==◌, take, length,
}
use dnsconfd.Prelude.Int.{ℤ, pos}
use dnsconfd.Ip.{SockAddr, cleared}
use dnsconfd.Network.{NetworkAddress}

-- `dns_protocol_t`; `protocols_end` is also the value of a protocol that was not recognised.
pub data Protocol : Type 0 where
  udp tcp tls protocols_end : Protocol

-- The numbers of the enumeration, which the program compares and subtracts.
abbrev pub protocol_number : Protocol → ℕ
protocol_number udp = 0
protocol_number tcp = 1
protocol_number tls = 2
protocol_number protocols_end = 3

abbrev pub protocol_eq : Protocol → Protocol → Bool
protocol_eq p q = protocol_number p == protocol_number q

-- `server_uri_t`. `interface` is empty where none is set; `dnssec` is 0 or 1.
pub record Server : Type 0 where
  pub address : SockAddr
  pub priority : ℤ
  pub interface : Text
  pub dnssec : ℕ
  pub protocol : Protocol
  pub certification_authority : Option Text
  pub name : Option Text
  pub routing_domains : List Text
  pub search_domains : List Text
  pub networks : List NetworkAddress

abbrev pub ifnamsiz : ℕ
ifnamsiz = 16

abbrev pub server_uri_t_init : Server
server_uri_t_init = record {
  address = cleared;
  priority = pos 0;
  interface = [];
  dnssec = 1;
  protocol = udp;
  certification_authority = none;
  name = none;
  routing_domains = [];
  search_domains = [];
  networks = [];
}

-- `memcmp(string, literal, 6) == 0`, where seven bytes may be read.
abbrev same_six : Text → Text → Bool
same_six string literal = text_eq (take 6 string) (take 6 literal)

-- The caller gives the length of the text as `n`.
unfoldable pub protocol_from_nstring : Text → ℕ → Protocol
protocol_from_nstring string n =
    if not (n == 7)
    then protocols_end
    else if same_six string (codes "dns+udp")
    then udp
    else if same_six string (codes "dns+tcp")
    then tcp
    else if same_six string (codes "dns+tls")
    then tls
    else protocols_end

unfoldable pub dns_protocol_t_to_string : Protocol → Text
dns_protocol_t_to_string udp = codes "dns+udp"
dns_protocol_t_to_string tcp = codes "dns+tcp"
dns_protocol_t_to_string tls = codes "dns+tls"
dns_protocol_t_to_string protocols_end = codes "unknown"

-- The strings and lists are copied; memory is not exhausted.
unfoldable pub server_uri_t_copy : Server → Server
server_uri_t_copy src = record {
  address = src.address;
  priority = src.priority;
  interface = src.interface;
  dnssec = src.dnssec;
  protocol = src.protocol;
  certification_authority = src.certification_authority;
  name = src.name;
  routing_domains = src.routing_domains;
  search_domains = src.search_domains;
  networks = src.networks;
}

unfoldable pub server_uri_t_list_replace_elements_with_copies : List Server → List Server
unfolding server_uri_t_copy
server_uri_t_list_replace_elements_with_copies [] = []
server_uri_t_list_replace_elements_with_copies (s ∷ list) =
    server_uri_t_copy s ∷ server_uri_t_list_replace_elements_with_copies list

-- A copy holds what the original holds.
pub copies_lem : (l : List Server) → server_uri_t_list_replace_elements_with_copies l ≡ l
unfolding server_uri_t_list_replace_elements_with_copies
copies_lem [] = refl
copies_lem (s ∷ l) = λ i. s ∷ copies_lem l i

-- Every protocol, and the value that stands for an unknown one, is read back from its name.
pub protocol_from-to_string :
    (p : Protocol)
    → protocol_from_nstring (dns_protocol_t_to_string p) (length (dns_protocol_t_to_string p)) ≡ p
unfolding protocol_from_nstring dns_protocol_t_to_string text_eq
protocol_from-to_string udp = refl
protocol_from-to_string tcp = refl
protocol_from-to_string tls = refl
protocol_from-to_string protocols_end = refl
