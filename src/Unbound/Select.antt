-- ===== src/Unbound/Select.antt =====
-- `get_used_servers` of src/dns_managers/unbound_manager.c: the servers of a domain that are used.
pub mod Ranks
pub mod Laws
pub mod Best
use dnsconfd.Prelude.{
  ◌≡◌, Bool, true, false, not, ◌&&◌, ◌||◌, Option, none, some, List, [], ◌∷◌, Text, text_eq, codes,
  if◌then◌else◌, ltb, ◌==◌, is_nil,
}
use dnsconfd.Prelude.Int.{ltb_ℤ, eqb_ℤ}
use dnsconfd.Config.{Mode, backup, prefer, exclusive}
use dnsconfd.Server.{Server, protocol_number}

abbrev pub above_backup : Mode → Bool
above_backup backup = false
above_backup prefer = true
above_backup exclusive = true

abbrev pub is_exclusive : Mode → Bool
is_exclusive exclusive = true
is_exclusive _ = false

-- The server is bound to an interface and the mode does not let such a server answer for the domain.
abbrev pub is_skipped : Mode → Text → Server → Bool
is_skipped mode domain s =
    not (is_nil s.interface)
    && (above_backup mode && text_eq domain (codes ".") || is_exclusive mode)

-- The condition of the `break`: `first` is the server at the head of the list.
abbrev pub falls_below : Server → Server → Bool
falls_below first s =
    ltb_ℤ s.priority first.priority
    || ltb (protocol_number s.protocol) (protocol_number first.protocol)
    || not (s.dnssec == first.dnssec)

used_loop : Mode → Text → Server → List Server → List Server → List Server
used_loop mode domain first used [] = used
used_loop mode domain first used (s ∷ servers) =
    let next =
      used_loop mode domain first (if is_skipped mode domain s then used else s ∷ used) servers in
    if falls_below first s then used else next

-- `none` is the access through a NULL list.
unfoldable pub get_used_servers : List Server → Mode → Text → Option (List Server)
unfolding used_loop
get_used_servers [] mode domain = none
get_used_servers (first ∷ rest) mode domain = some (used_loop mode domain first [] (first ∷ rest))
