-- ===== src/Service.antt =====
-- src/service_management.c: the service that runs Unbound, driven through two files.
use dnsconfd.Prelude.{
  ◌+◌, Bool, true, false, not, Option, none, some, Text, text_eq, codes, if◌then◌else◌,
}
use dnsconfd.Env.{Env, World, ask, tick, emit, wrote, spoiled}
use dnsconfd.Context.{Context}

abbrev pub control_file : Text
control_file = codes "/run/dnsconfd/unbound_control"

abbrev pub status_file : Text
status_file = codes "/run/dnsconfd/unbound_status"

unfoldable pub write_to_file : Env → Text → Text → World → Bool × World
write_to_file env filename content w =
    let (opened, w1) = ask env w in
    let (put, w2) = ask env w1 in
    let (closed, w3) = ask env w2 in
    if not opened
    then (false, w1)
    else if not put
    then (false, emit (spoiled filename) (tick w2))
    else if not closed
    then (false, emit (spoiled filename) w3)
    else (true, emit (wrote filename content) w3)

-- Whether it returned 0.
unfoldable pub set_service_status : Env → Context → Text → Text → Bool × Context
unfolding write_to_file
set_service_status env ctx expected_status command =
    let (pending, w1) = write_to_file env status_file (codes "pending") ctx.world in
    let (sent, w2) = write_to_file env control_file command w1 in
    if not pending
    then (false, record ctx { expected_status = some expected_status; world = w1 })
    else (sent, record ctx { expected_status = some expected_status; world = w2 })

-- Each call connects one more monitor of the status file.
unfoldable pub service_management_subscribe_job_removed : Env → Context → Bool × Context
service_management_subscribe_job_removed env ctx =
    let (watched, w1) = ask env ctx.world in
    (
      watched,
      record ctx { monitors = (if watched then ctx.monitors + 1 else ctx.monitors); world = w1 },
    )

abbrev is_expected : Option Text → Text → Bool
is_expected none content = false
is_expected (some status) content = text_eq content status

-- `on_file_changed` with the stripped content of the status file: the result that is handed to the
-- callback, and `none` where the callback is not called.
unfoldable pub job_result : Option Text → Text → Option Text
job_result expected_status content =
    if is_expected expected_status content
    then some (codes "done")
    else if text_eq content (codes "fail")
    then some (codes "fail")
    else if text_eq content (codes "stopped")
    then some (codes "stopped")
    else none
