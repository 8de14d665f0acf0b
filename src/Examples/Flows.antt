-- ===== src/Examples/Flows.antt =====
-- The flows and the worker, at concrete inputs.
use disc_stakka_web.Jobs.{Phase}
use disc_stakka_web.Simulator.Bus.{Bus, plugged}
use disc_stakka_web.Protocol.Handle.{DiscStakka}
use disc_stakka_web.Controller.Keep.{Keeper, tend}
use disc_stakka_web.Controller.Claims.{Desk, probe, reconnect}
use disc_stakka_web.Controller.Claiming.{Settles, SparesError, claims_give_the_unit_back}
use disc_stakka_web.Controller.Tending.{tend_gives_the_unit_back}
use disc_stakka_web.Examples.Inputs.{carousel}
use disc_stakka_web.Base.{true, false, none, [], ◌∷◌, ◌≡◌, ◌≢◌, ◌⊎◌, refl, arith}
use disc_stakka_web.Effect.{ok, running, is_device_error}
use disc_stakka_web.Effect.Triple.{After, Any}
use disc_stakka_web.Simulator.Clock.{simulated-IsTicking}
use disc_stakka_web.Simulator.Bus.{simulated}
use disc_stakka_web.Protocol.EmptyBay.{IsGuarded}
use disc_stakka_web.Protocol.Rotation.{}
use disc_stakka_web.Jobs
use disc_stakka_web.Flows.{run_reset, run_eject}
use disc_stakka_web.Flows.Add.{run_add}
use disc_stakka_web.Flows.Holding.{Rows}
use disc_stakka_web.Flows.Eject.{Ejected, eject_tracks_the_disc}
use disc_stakka_web.Flows.Load.{Added, load_catalogues_the_disc}
use disc_stakka_web.Flows.Rotation.{flows_see_an_empty_bay}
use disc_stakka_web.Flows.Ending.{flows_end}
use disc_stakka_web.Controller.Run.{run_owned}
use disc_stakka_web.Controller.Worker.{IsFinished, worker_reports_an_end, hardware_jobs_finish}
use disc_stakka_web.Examples.Inputs.{fuel, enough, linked, closed, disc, connect, connect-IsTotal}

flows_see_an_empty_bay_example :
    IsGuarded (run_reset simulated fuel linked).1.events
    × IsGuarded (run_eject simulated fuel 7 linked).1.events
    × IsGuarded (run_add simulated fuel 20 none linked).1.events
flows_see_an_empty_bay_example = flows_see_an_empty_bay simulated fuel 20 none 7 linked tt

flows_end_example :
    ((run_reset simulated fuel linked).0 ≢ running)
    × ((run_eject simulated fuel 7 linked).0 ≢ running)
    × ((run_add simulated fuel 20 none linked).0 ≢ running)
flows_end_example = flows_end simulated simulated-IsTicking 30_000 enough 20 none 7 linked

eject_tracks_the_disc_example :
    After Any
      (λ _ s'.
        Ejected 9 (disc ∷ []) 7 s'.caller.job.phase s'.caller.conn.live.discs
        × (s'.caller.conn.saved.discs ≡ s'.caller.conn.live.discs))
      (λ _ s'. Rows 9 (disc ∷ []) s'.caller.conn)
      (run_eject simulated fuel 7 linked).0
      (run_eject simulated fuel 7 linked).1
eject_tracks_the_disc_example =
    eject_tracks_the_disc simulated fuel 9 (disc ∷ []) 7 linked (refl, refl, refl) (λ st j. refl)

load_catalogues_the_disc_example :
    After Any
      (λ _ s'.
        Added 9 (disc ∷ []) 20 none s'.caller.job.phase s'.caller.conn.live.discs
        × (s'.caller.conn.saved.discs ≡ s'.caller.conn.live.discs))
      (λ e s'. (is_device_error e ≡ false) ⊎ Rows 9 (disc ∷ []) s'.caller.conn)
      (run_add simulated fuel 20 none linked).0
      (run_add simulated fuel 20 none linked).1
load_catalogues_the_disc_example =
    load_catalogues_the_disc simulated fuel 9 (disc ∷ []) 20 none linked (refl, refl, refl)
      (λ st j. refl)

worker_reports_an_end_example :
    After Any
      (λ _ s'. (Jobs.finished s'.caller.job ≡ true) × (s'.trace ≡ none))
      (λ _ _. ⊥)
      (run_owned simulated fuel connect (run_eject simulated fuel 7) closed).0
      (run_owned simulated fuel connect (run_eject simulated fuel 7) closed).1
worker_reports_an_end_example =
    worker_reports_an_end simulated fuel connect connect-IsTotal (run_eject simulated fuel 7) closed

hardware_jobs_finish_example :
    IsFinished
      (run_owned simulated fuel connect (run_reset simulated fuel) closed).0
      (run_owned simulated fuel connect (run_reset simulated fuel) closed).1
    × IsFinished
        (run_owned simulated fuel connect (run_eject simulated fuel 7) closed).0
        (run_owned simulated fuel connect (run_eject simulated fuel 7) closed).1
    × IsFinished
        (run_owned simulated fuel connect (run_add simulated fuel 20 none) closed).0
        (run_owned simulated fuel connect (run_add simulated fuel 20 none) closed).1
hardware_jobs_finish_example =
    hardware_jobs_finish simulated simulated-IsTicking 30_000 enough connect connect-IsTotal 20 none
      7 closed

abbrev idle : DiscStakka Bus Keeper
idle = record {
  io = plugged carousel;
  is_open = false;
  unit = 0;
  serial = none;
  firmware = none;
  trace = none;
  caller = record { busy = false; held = false; open_error = none };
  events = [];
}

tend_gives_the_unit_back_example :
    ((tend simulated fuel idle).0 ≡ ok tt) × ((tend simulated fuel idle).1.caller.held ≡ false)
tend_gives_the_unit_back_example =
    tend_gives_the_unit_back simulated simulated-IsTicking 30_000 (omega arith) idle

abbrev unclaimed : DiscStakka Bus Desk
unclaimed = record {
  io = plugged carousel;
  is_open = false;
  unit = 0;
  serial = none;
  firmware = none;
  trace = none;
  caller = record {
    current_before = none;
    acquired = true;
    current_after = none;
    open_error = none;
    held = false;
  };
  events = [];
}

claims_give_the_unit_back_example :
    Settles SparesError none true unclaimed (probe simulated fuel unclaimed)
    × Settles (λ _. Unit) none true unclaimed (reconnect simulated fuel unclaimed)
claims_give_the_unit_back_example =
    claims_give_the_unit_back simulated simulated-IsTicking 30_000 enough unclaimed
