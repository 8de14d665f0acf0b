-- ===== src/Web/Device.antt =====
-- app.py: the pages of the device (lines 398 to 430), given how the call of the controller ended.
use disc_stakka_web.Base.{if◌then◌else◌, Option, none, some}
use disc_stakka_web.Effect.{
  Text, format, nil, text, error, Outcome, ok, raised, running, Done, ◌>>=◌, ◌>>◌, pure, raise,
  gets, out_of_fuel, is_device_error,
}
use disc_stakka_web.Flows.{say}
use disc_stakka_web.Catalog.Recent.{recent_events}
use disc_stakka_web.Controller.Run.{text_of}
use disc_stakka_web.Controller.Claims.{Claimed, busy_with, granted, Probe}
use disc_stakka_web.Web.{
  Web, Response, render, see_other, device_view, device_target, ok_flash, warn_flash, error_flash,
  flash, query, with_conn,
}

-- What the page is given of a probe: its result, or an error.
abbrev pub probed : Outcome (Claimed Probe) → Web (Option Probe × Option Text)
probed (ok (granted p)) = pure (some p, none)
probed (ok (busy_with ref)) =
    gets (λ s. (none, some (format "Busy with: %s" (text (s.controller.job_at ref).title nil))))
probed (raised e) = if is_device_error e then pure (none, some (text_of e)) else raise e
probed running = out_of_fuel

abbrev pub show_device : Option Probe × Option Text → Web Response
show_device shown =
    with_conn
      (query (recent_events 25) >>= λ events. pure (render (device_view shown.0 shown.1 events)))

unfoldable pub device_page : Outcome (Claimed Probe) → Web Response
device_page r = probed r >>= show_device

abbrev pub reconnected : Outcome (Claimed Done) → Web Done
reconnected (ok (granted d)) = flash (ok_flash (say "Reconnected to the unit."))
reconnected (ok (busy_with ref)) = do
  job ← gets (λ s. s.controller.job_at ref)
  flash (warn_flash (format "Busy with: %s" (text job.title nil)))
reconnected (raised e) =
    if is_device_error e
    then flash (error_flash (format "Still cannot reach the unit: %s" (error e nil)))
    else raise e
reconnected running = out_of_fuel

unfoldable pub device_reconnect : Outcome (Claimed Done) → Web Response
device_reconnect r = reconnected r >> pure (see_other device_target)
