-- ===== src/Options/File/Servers/Laws.antt =====
-- The static servers that `parse_static_servers` of src/configuration_parsing/config_file.c accepts, and
-- the events that it reads.
use dnsconfd.Prelude.{
  ℕ, zero, suc, ◌≤◌, ◌≡◌, Bool, true, false, Option, none, some, List, [], ◌∷◌, Text, codes, arith,
  length, is_nil, if◌then◌else◌,
}
use dnsconfd.Ip.{SockAddr, Inet, InetLaws, unspec, family_eq, set_default_port}
use dnsconfd.Ip.Laws.{
  IsStorage, IsStorage-IsAddress, set_default_port-IsAddress, set_default_port_ne,
}
use dnsconfd.Server.{Server, server_uri_t_init, tls, protocol_eq}
use dnsconfd.Server.Valid.{IsComplete}
use dnsconfd.Config.{Config}
use dnsconfd.Config.Sound.{IsSound, server-IsSound}
use dnsconfd.Yaml.{
  Event, scalar, sequence_start, sequence_end, mapping_start, mapping_end, done, failed, on_done,
}
use dnsconfd.Yaml.Laws.{Holds, on_done-Holds, if-Holds, weaken-Holds}
use dnsconfd.Options.File.Servers.{
  Reading, with_server, server_sequence, server_field, server_end, server_scalar, server_event,
  servers_loop, parse_static_servers,
}
use dnsconfd.Options.File.Servers.Pending.{
  IsPending, first-IsPending, Maybe, Reads, Reached, ReadsOn,
}
use dnsconfd.Options.File.Servers.Fields.{sequence-ReadsOn, field-IsPending}

module _ {net : Inet} (laws : InetLaws net) (memory : ℕ → SockAddr)
    (storage : (n : ℕ) → IsStorage (memory n)) where
  end-Reads :
      (r : Reading) (s : Server) → IsSound r.config → IsPending s → Holds Reads (server_end r s)
  unfolding server_end
  end-Reads r s h p =
      if-Holds Reads (family_eq s.address.family unspec) _ _ (λ _. tt)
        (λ e. (server-IsSound r.config _ h (complete e), tt))
    where
      complete :
          family_eq s.address.family unspec ≡ false
          → IsComplete (record s {
            routing_domains =
                if is_nil s.routing_domains then codes "." ∷ [] else s.routing_domains;
            address = set_default_port s.address (if protocol_eq s.protocol tls then 853 else 53);
          })
      complete e =
          let a = IsStorage-IsAddress s.address e p.stored in
          record {
            server = record {
              addressed = set_default_port-IsAddress s.address _ (ground arith) a;
              networks_fit = p.networks_fit;
              interface_fits = p.interface_fits;
              supported = p.supported;
            };
            port_pos = set_default_port_ne s.address _ (ground arith) a;
            has_domain = ground arith;
          }

  scalar-Reads :
      (r : Reading) (value : Text) (b : Bool) → Reads r → Holds Reads (server_scalar net r value b)
  unfolding server_scalar
  scalar-Reads r value true h = h
  scalar-Reads r value false h = go r.current_server r.current_key h.1
    where
      go :
          (s : Option Server) (k : Option Text)
          → Maybe s
          → Holds Reads (elim s [
            | none ↦ done (record r { current_key = none; expect_key = true })
            | some server ↦ elim k [
              | none ↦ done (record r { current_key = none; expect_key = true })
              | some key ↦ on_done (server_field net server key value) (λ t. done (with_server r t))
            ]
          ])
      go none k m = h
      go (some s) none m = h
      go (some s) (some key) m =
          on_done-Holds IsPending Reads (server_field net s key value) _
            (field-IsPending laws memory storage s key value m) (λ t _ p. (h.0, p))

  event-ReadsOn :
      (e : Event) (r : Reading) (events : List Event)
      → Reads r
      → Holds (ReadsOn events) (server_event net memory e r events)
  unfolding server_event
  event-ReadsOn sequence_start r events h = go r.current_server r.current_key h.1
    where
      go :
          (s : Option Server) (k : Option Text)
          → Maybe s
          → Holds (ReadsOn events) (elim s [
            | none ↦ failed (some (codes "Badly formatted static_servers"))
            | some server ↦ elim k [
              | none ↦ failed (some (codes "Badly formatted static_servers"))
              | some key ↦ server_sequence net memory r server key events
            ]
          ])
      go none k m = tt
      go (some s) none m = tt
      go (some s) (some key) m = sequence-ReadsOn laws memory storage r s key events h.0 m
  event-ReadsOn mapping_start r events h = go r.current_server
    where
      go :
          (s : Option Server)
          → Holds (ReadsOn events) (elim s [
            | none ↦ done (record r { current_server = some server_uri_t_init }, events)
            | some server ↦ failed (some (codes "Badly formatted static_servers"))
          ])
      go none = ((h.0, first-IsPending), omega arith)
      go (some s) = tt
  event-ReadsOn mapping_end r events h = go r.current_server h.1
    where
      go :
          (s : Option Server)
          → Maybe s
          → Holds (ReadsOn events) (elim s [
            | none ↦ done (r, events)
            | some server ↦ on_done (server_end r server) (λ t. done (t, events))
          ])
      go none m = (h, omega arith)
      go (some s) m =
          on_done-Holds Reads (ReadsOn events) (server_end r s) _ (end-Reads r s h.0 m)
            (λ t _ k. (k, omega arith))
  event-ReadsOn (scalar value) r events h =
      on_done-Holds Reads (ReadsOn events) (server_scalar net r value r.expect_key) _
        (scalar-Reads r value r.expect_key h) (λ t _ k. (k, omega arith))
  event-ReadsOn sequence_end r events h = (h, omega arith)
  event-ReadsOn _ r events h = (h, omega arith)

  servers_loop-round :
      (fuel : ℕ) (e : Event) (events : List Event) (r : Reading)
      → length events ≤ fuel
      → Reads r
      → ((rest : List Event) (next : Reading)
          → length rest ≤ fuel
          → Reads next
          → Holds (Reached rest) (servers_loop net memory fuel rest next))
      → Holds (Reached (e ∷ events)) (
          on_done
            (server_event net memory e r events)
            (λ (next, rest). servers_loop net memory fuel rest next))
  servers_loop-round fuel e events r l h f =
      on_done-Holds (ReadsOn events) (Reached (e ∷ events)) (server_event net memory e r events) _
        (event-ReadsOn e r events h)
        (λ (next, rest) _ (k, m).
          weaken-Holds (Reached rest) (Reached (e ∷ events))
            (servers_loop net memory fuel rest next)
            (λ (config, left) (good, less). (good, omega (arith, less, m)))
            (f rest next (omega (arith, m, l)) k))

  servers_loop-Reached :
      (fuel : ℕ) (events : List Event) (r : Reading)
      → length events ≤ fuel
      → Reads r
      → Holds (Reached events) (servers_loop net memory fuel events r)
  unfolding servers_loop
  servers_loop-Reached fuel [] r l h = tt
  servers_loop-Reached fuel (sequence_end ∷ events) r l h = (h.0, omega arith)
  servers_loop-Reached zero (sequence_start ∷ events) r l h = absurd (omega (arith, l))
  servers_loop-Reached zero (e ∷ events) r l h = absurd (omega (arith, l))
  servers_loop-Reached (suc fuel) (sequence_start ∷ events) r l h =
      servers_loop-round fuel sequence_start events r (omega (arith, l)) h
        (λ rest next m k. servers_loop-Reached fuel rest next m k)
  servers_loop-Reached (suc fuel) (e ∷ events) r l h =
      servers_loop-round fuel e events r (omega (arith, l)) h
        (λ rest next m k. servers_loop-Reached fuel rest next m k)

  -- The reading of `static_servers` ends within its fuel, whatever the events are. If it succeeds on a
  -- sound configuration, then in the result, too, every static server can be used: it has an address of a
  -- known family with a port that is not 0, a supported protocol, an interface name that fits, at
  -- least one routing domain, and networks whose prefix their family allows. No more events are
  -- left than there were. The memory for a network is of the right size, and the conversions are ones
  -- for which the documentation of `inet_pton` holds.
  pub parse_static_servers-Reached :
      (events : List Event) (config : Config)
      → IsSound config
      → Holds (Reached events) (parse_static_servers net memory events config)
  unfolding parse_static_servers
  parse_static_servers-Reached events config h =
      servers_loop-Reached (length events) events _ (omega arith) (h, tt)
