-- ===== src/Server/Uri/Laws/Filled.antt =====
-- How the priority, the port and the result of `server_uri_t_init_from_string` in
-- src/types/server_uri.c fill a server.
use dnsconfd.Prelude.{
  ◌≡◌, refl, Bool, true, false, ◌||◌, Option, none, some, ◌++◌, Text, arith, is_nil, if◌then◌else◌,
}
use dnsconfd.Prelude.Int.{ℤ, pos, pos_part, ltb_ℤ}
use dnsconfd.Number.{strtol}
use dnsconfd.Server.{Server}
use dnsconfd.Server.Valid.{IsServer, same-IsServer, with_port-IsServer, Fills, if-Fills}
use dnsconfd.Server.Uri.{
  Uri, query_priority, Filling, refused, overrun, filled, or_refused, uri_port,
}

pub priority-Fills : (value : Text) (s : Server) → IsServer s → Fills (query_priority value s)
unfolding query_priority
priority-Fills value s h =
    if-Fills _ none (some (record s { priority = (strtol value).0 })) (λ _. tt)
      (λ _. same-IsServer s _ h refl refl refl refl)

pub port-Fills : (u : Uri) (s : Server) → IsServer s → Fills (uri_port u s)
unfolding uri_port
port-Fills u s h =
    if-Fills (is_nil u.port_text) (some s) _ (λ _. h)
      (λ _. given (strtol (u.port_text ++ u.after_port)).0)
  where
    given :
        (n : ℤ)
        → Fills (
            if ltb_ℤ n (pos 0) || ltb_ℤ (pos 65535) n
            then none
            else some (record s { address = record s.address { port = pos_part n } }))
    given n =
        if-Fills (ltb_ℤ n (pos 0) || ltb_ℤ (pos 65535) n) _ _ (λ _. tt)
          (λ e. with_port-IsServer s (pos_part n) (ground (arith, e)) h)

-- If a server is filled, it is one that the rest of the program may rely on.
abbrev pub Accepts : Filling → Type 0
Accepts refused = Unit
Accepts overrun = Unit
Accepts (filled s) = IsServer s

pub or_refused-Accepts : (o : Option Server) → Fills o → Accepts (or_refused o)
or_refused-Accepts none h = tt
or_refused-Accepts (some s) h = h

pub if-Accepts :
    (b : Bool) (x y : Filling)
    → (b ≡ true → Accepts x)
    → (b ≡ false → Accepts y)
    → Accepts (if b then x else y)
if-Accepts true x y f g = f refl
if-Accepts false x y f g = g refl
