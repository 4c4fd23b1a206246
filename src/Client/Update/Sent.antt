-- ===== src/Client/Update/Sent.antt =====
-- What `build_servers_variant` of src/cli_commands/cli_update.c sends, read by `handle_update_call` of
-- src/dbus_server.c.
use mathlib.Core.List.{append_assoc, append-nil}
use dnsconfd.Prelude.{
  ◌≤◌, ◌≡◌, refl, ap, sym, ◌∙◌, true, not, some, List, [], ◌∷◌, ◌++◌, All, length, if◌then◌else◌,
}
use dnsconfd.Ip.{SockAddr, InetLaws, cleared, c_string, are_ips_equal}
use dnsconfd.Ip.Laws.{
  cleared-IsStorage, parse_ip_str-IsAddress, with_port, IsAddress, are_ips_equal-port,
  parse_ip_str-port,
}
use dnsconfd.Network.{NetworkAddress, network_address_t_from_string, network_address_to_string}
use dnsconfd.Network.Parse.{IsNetwork, parse_ip_str-ip_to_str, from_string-to_string}
use dnsconfd.Server.{Server, server_uri_t_init, tls, protocol_eq}
use dnsconfd.Server.Valid.{IsServer}
use dnsconfd.Server.Json.Members.{SameNetworks}
use dnsconfd.Daemon.Update.{
  parsed, Host, parse_address, parse_priority, parse_networks, field, parse_fields, with_defaults,
  parse_server,
}
use dnsconfd.Client.Update.{network_strings, build_networks_array, server_dict}
use dnsconfd.Client.Update.Fields.{
  IsPlain, IsSame, defaulted_lem, port_lem, interface_lem, protocol_lem, dnssec_lem, ca_lem,
  name_lem, routing_lem, search_lem,
}

module _ (host : Host) (laws : InetLaws host.net) where
  network_text_lem :
      (n : NetworkAddress) (m : SockAddr)
      → IsNetwork n
      → (k : NetworkAddress) × (network_address_t_from_string host.net m
            (c_string (network_address_to_string host.net n))
          ≡ some k)
        × (are_ips_equal k.address n.address ≡ true)
        × (k.prefix ≡ n.prefix)
  network_text_lem n m h =
      let (t, k, shown, read, same, prefix) = from_string-to_string laws n m h in
      (k, rw shown read, same, prefix)

  networks_loop :
      (l : List NetworkAddress) (u : Server)
      → All IsNetwork l
      → (ms : List NetworkAddress) × (parse_networks host (network_strings host.net l) u
          ≡ parsed (record u { networks = u.networks ++ ms }))
        × SameNetworks ms l
  unfolding parse_networks
  networks_loop [] u h =
      ([], ap (λ x. parsed (record u { networks = x })) (sym (append-nil u.networks)), tt)
  networks_loop (n ∷ l) u h =
      let (k, e, same, prefix) = network_text_lem n (host.memory (length u.networks)) h.0 in
      let (ms, f, sames) = networks_loop l (record u { networks = u.networks ++ (k ∷ []) }) h.1 in
      (
        k ∷ ms,
        rw e f ∙ ap (λ x. parsed (record u { networks = x })) (append_assoc u.networks (k ∷ []) ms),
        (same, prefix, sames),
      )

  networks_lem :
      (l : List NetworkAddress) (u : Server)
      → u.networks ≡ []
      → All IsNetwork l
      → (ms : List NetworkAddress) × (field
            (build_networks_array host.net l)
            (parse_networks host)
            u
          ≡ parsed (record u { networks = ms }))
        × SameNetworks ms l
  unfolding build_networks_array
  networks_lem [] u z h = ([], ap (λ x. parsed (record u { networks = x })) z, tt)
  networks_lem (n ∷ l) u z h =
      let (ms, e, sames) = networks_loop (n ∷ l) u h in
      (ms, e ∙ ap (λ x. parsed (record u { networks = x ++ ms })) z, sames)

  address_lem :
      (s : Server)
      → IsAddress s.address
      → (b : SockAddr) × (parse_address host.net (server_dict host.net s) server_uri_t_init
          ≡ parsed (record server_uri_t_init { address = b }))
        × (are_ips_equal b s.address ≡ true)
        × (b.port ≡ 0)
        × IsAddress b
  unfolding parse_address server_dict
  address_lem s h =
      let (t, b, shown, read, same, _, _, _) = parse_ip_str-ip_to_str laws s.address cleared h in
      (
        b,
        rw (shown, read) refl,
        same,
        parse_ip_str-port host.net t cleared b read,
        parse_ip_str-IsAddress laws t cleared b cleared-IsStorage read,
      )

  -- What the daemon reads from the dictionary that the client builds for a server is the same server, with
  -- the root as its domain and the port of its protocol where it has none. The server is one that the
  -- parsers accept, its domains are in the form that libidn2 gives, and the conversions of addresses
  -- follow their documentation.
  pub parse_server-server_dict :
      (s : Server)
      → IsServer s
      → s.dnssec ≤ 1
      → All (IsPlain host) s.routing_domains
      → All (IsPlain host) s.search_domains
      → (t : Server) × (parse_server host (server_dict host.net s) ≡ parsed t)
        × IsSame t (with_defaults s)
  unfolding parse_server parse_fields with_defaults server_dict parse_priority
  parse_server-server_dict s h flag routes searches =
      let (b, e0, same, zero, known) = address_lem s h.addressed in
      let u0 : Server = record server_uri_t_init { address = b } in
      let u1 : Server = record u0 { address = record b { port = s.address.port } } in
      let u2 : Server = record u1 { priority = s.priority } in
      let u3 : Server = record u2 { protocol = s.protocol } in
      let u4 : Server = record u3 { interface = s.interface } in
      let u5 : Server = record u4 { dnssec = s.dnssec } in
      let u6 : Server = record u5 { certification_authority = s.certification_authority } in
      let u7 : Server = record u6 { name = s.name } in
      let u8 : Server = record u7 { routing_domains = s.routing_domains } in
      let u9 : Server = record u8 { search_domains = s.search_domains } in
      let (ms, e10, sames) = networks_lem s.networks u9 refl h.networks_fit in
      let port = if not (protocol_eq s.protocol tls) then 53 else 853 in
      let (ip, ports) =
        defaulted_lem (record b { port = s.address.port }) s.address port
          (with_port b s.address.port h.addressed.port_fits known) h.addressed
          (are_ips_equal-port b s.address s.address.port ∙ same) refl in
      (
        with_defaults (record u9 { networks = ms }),
        rw
            (
              e0,
              port_lem s u0 zero h.addressed.port_fits,
              protocol_lem s.protocol u2 h.supported,
              interface_lem s.interface u3 refl h.interface_fits,
              dnssec_lem s.dnssec u4 flag,
              ca_lem s.certification_authority u5 refl,
              name_lem s.name u6 refl,
              routing_lem host s.routing_domains u7 refl routes,
              search_lem host s.search_domains u8 refl searches,
              e10,
            )
            refl,
        record {
          same_ip = ip;
          port = ports;
          priority = refl;
          interface = refl;
          dnssec = refl;
          protocol = refl;
          ca = refl;
          name = refl;
          routing = refl;
          search = refl;
          networks = sames;
        },
      )
