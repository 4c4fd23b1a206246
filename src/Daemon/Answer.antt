-- ===== src/Daemon/Answer.antt =====
-- `handle_update_call` of src/dbus_server.c as a whole.
use dnsconfd.Prelude.{ℕ, Option, none, some, List, [], if◌then◌else◌, ◌==◌}
use dnsconfd.Server.{Server}
use dnsconfd.Config.{Mode, backup, prefer, exclusive}
use dnsconfd.Env.{Env}
use dnsconfd.Context.{Context}
use dnsconfd.Daemon.{accept_update}
use dnsconfd.Daemon.Update.{
  ParseError, invalid_mode, Parsed, error, parsed, ServerDict, Host, parse_servers,
}

-- The serial of the update, or 0 with the text of an error.
pub data Reply : Type 0 where
  accepted : ℕ → Reply
  declined : ParseError → Reply

abbrev pub mode_of : ℕ → Option Mode
mode_of mode =
    if mode == 0
    then some backup
    else if mode == 1
    then some prefer
    else if mode == 2
    then some exclusive
    else none

abbrev pub reply : Option Context → Option (Reply × Context)
reply none = none
reply (some ctx) = some (accepted ctx.requested_configuration_serial, ctx)

abbrev pub reply_to : Env → Mode → Context → Parsed (List Server) → Option (Reply × Context)
reply_to env mode ctx (error e) = some (declined e, ctx)
reply_to env mode ctx (parsed servers) = reply (accept_update env mode servers ctx)

abbrev pub reply_in :
    Host → Env → Option Mode → List ServerDict → Context → Option (Reply × Context)
reply_in host env none dicts ctx = some (declined invalid_mode, ctx)
reply_in host env (some mode) dicts ctx = reply_to env mode ctx (parse_servers host dicts [])

-- `none` is a call that does not return.
unfoldable pub handle_update_call :
    Host → Env → ℕ → List ServerDict → Context → Option (Reply × Context)
handle_update_call host env mode dicts ctx = reply_in host env (mode_of mode) dicts ctx
