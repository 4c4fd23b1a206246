-- ===== src/Server/Json/Echo.antt =====
-- `server_uri_to_json` of src/types/server_uri.c, read back by `server_uri_t_list_from_json`.
use dnsconfd.Prelude.{
  ℕ, ◌≤◌, ◌≡◌, refl, sym, ◌∙◌, true, false, Option, none, some, Text, arith, is_nil, ◌>>=◌,
}
use dnsconfd.Prelude.Int.{IsInt32}
use dnsconfd.Ip.{SockAddr, Inet, InetLaws, cleared, ip_text, are_ips_equal}
use dnsconfd.Ip.Laws.{IsAddress, are_ips_equal-port}
use dnsconfd.Network.Parse.{parse_ip_str-ip_to_str}
use dnsconfd.Server.{Server, server_uri_t_init}
use dnsconfd.Server.Valid.{IsServer}
use dnsconfd.Json.{Json, string}
use dnsconfd.Server.Json.{
  parse_json_port_field, parse_json_address_field, parse_json_protocol_field,
  parse_json_priority_field, parse_json_interface_field, parse_json_dnssec_field,
  parse_json_ca_field, parse_json_name_field, parse_json_domains_field,
  parse_json_search_domains_field, parse_json_networks_field, optional, optional_fields,
  server_of_json, server_uri_to_json, name_json,
}
use dnsconfd.Server.Json.Members.{
  IsEcho, domains_lem, port_lem, priority_lem, interface_lem, protocol_lem, dnssec_lem,
  networks_lem,
}
use dnsconfd.Server.Json.Keys.{
  get_address, get_port, get_protocol, get_priority, get_interface, get_dnssec, get_ca, get_name,
  get_routing, get_search, get_networks,
}

name_lem :
    (o : Option Text) (name : Text) (uri : Server)
    → o ≡ some name
    → parse_json_name_field (name_json o) uri ≡ some (record uri { name = some name })
unfolding parse_json_name_field
name_lem o name uri e = rw e

-- One key of `optional_fields` that is there, or not.
next :
    {o : Option Server} {g : Option Json} (parser : Json → Server → Option Server) (v : Json)
    (u w : Server)
    → o ≡ some u
    → g ≡ some v
    → parser v u ≡ some w
    → (o >>= optional g parser) ≡ some w
next parser v u w e f h = rw (e, f) h

next_absent :
    {o : Option Server} {g : Option Json} (parser : Json → Server → Option Server) (u : Server)
    → o ≡ some u
    → g ≡ none
    → (o >>= optional g parser) ≡ some u
next_absent parser u e f = rw (e, f)

module _ {net : Inet} (laws : InetLaws net) (memory : ℕ → SockAddr) where
  address_lem :
      (a : SockAddr)
      → IsAddress a
      → (b : SockAddr) × (parse_json_address_field net
            (some (string (ip_text net a)))
            server_uri_t_init
          ≡ some (record server_uri_t_init { address = b }))
        × (are_ips_equal b a ≡ true)
  unfolding parse_json_address_field
  address_lem a h =
      let (t, b, shown, parsed, same, _, _, _) = parse_ip_str-ip_to_str laws a cleared h in
      (b, rw (shown, parsed), same)

  -- A server with a name, an interface, and a priority that fits `int`, that is printed as JSON is read
  -- back as the same server, but for its CA, which is not printed. The server is one that the parsers
  -- accept, and the conversions of addresses follow their documentation.
  pub server_of_json-server_uri_to_json :
      (s : Server) (name : Text)
      → IsServer s
      → s.name ≡ some name
      → is_nil s.interface ≡ false
      → IsInt32 s.priority
      → s.dnssec ≤ 1
      → (t : Server) × (server_of_json net memory (server_uri_to_json net s) ≡ some t) × IsEcho t s
  unfolding server_of_json optional_fields server_uri_to_json parse_json_domains_field
      parse_json_search_domains_field parse_json_networks_field
  server_of_json-server_uri_to_json s name h named bound fits flag =
      let (b, read, same) = address_lem s.address h.addressed in
      let u0 : Server = record server_uri_t_init { address = b } in
      let u1 : Server = record u0 { address = record b { port = s.address.port } } in
      let u2 : Server = record u1 { protocol = s.protocol } in
      let u3 : Server = record u2 { priority = s.priority } in
      let u4 : Server = record u3 { interface = s.interface } in
      let u5 : Server = record u4 { dnssec = s.dnssec } in
      let u6 : Server = record u5 { name = some name } in
      let u7 : Server = record u6 { routing_domains = s.routing_domains } in
      let u8 : Server = record u7 { search_domains = s.search_domains } in
      let (ms, found, sames) = networks_lem laws memory s.networks u8 h.networks_fit in
      let e0 =
        next {o = some u0} parse_json_port_field _ u0 u1 refl (get_port net s)
          (port_lem s.address.port u0 (omega (arith, h.addressed.port_fits))) in
      let e1 =
        next parse_json_protocol_field _ u1 u2 e0 (get_protocol net s)
          (protocol_lem s.protocol u1 h.supported) in
      let e2 =
        next parse_json_priority_field _ u2 u3 e1 (get_priority net s)
          (priority_lem s.priority u2 fits) in
      let e3 =
        next parse_json_interface_field _ u3 u4 e2 (get_interface net s)
          (rw bound (interface_lem s.interface u3 (omega (arith, h.interface_fits)))) in
      let e4 =
        next parse_json_dnssec_field _ u4 u5 e3 (get_dnssec net s) (dnssec_lem s.dnssec u4 flag) in
      let e5 = next_absent parse_json_ca_field u5 e4 (get_ca net s) in
      let e6 =
        next parse_json_name_field _ u5 u6 e5 (get_name net s) (name_lem s.name name u5 named) in
      let e7 =
        next parse_json_domains_field _ u6 u7 e6 (get_routing net s)
          (rw (domains_lem s.routing_domains)) in
      let e8 =
        next parse_json_search_domains_field _ u7 u8 e7 (get_search net s)
          (rw (domains_lem s.search_domains)) in
      (
        record u8 { networks = ms },
        rw (get_address net s, read)
            (next (parse_json_networks_field net memory) _ u8 (record u8 { networks = ms }) e8
              (get_networks net s) found),
        record {
          same_ip = are_ips_equal-port b s.address s.address.port ∙ same;
          port = refl;
          priority = refl;
          interface = refl;
          dnssec = refl;
          protocol = refl;
          ca = refl;
          name = sym named;
          routing = refl;
          search = refl;
          networks = sames;
        },
      )
