-- ===== src/Web/Reads.antt =====
-- app.py: the requests that only read the catalogue, or start a job, keep what a submit keeps.
use disc_stakka_web.Base.{ℕ, Bool, Option, none, some, List}
use disc_stakka_web.Effect.{Text, Outcome, ok, raised, running, Done, is_device_error}
use disc_stakka_web.Effect.Triple.{raise_lem, fuel_lem, if_lem, Keeps, bind_lem, pure_lem, gets_lem}
use disc_stakka_web.Jobs.{JobId, Snapshot}
use disc_stakka_web.Catalog.Db.{Disc, Status, stored, out, Conn, get_disc}
use disc_stakka_web.Catalog.Listing.{Sqlite, View, count_discs, list_discs}
use disc_stakka_web.Catalog.Slots.{free_slots, next_free_slot}
use disc_stakka_web.Catalog.Stats.{stats, category_counts, platform_counts}
use disc_stakka_web.Controller.Submit.{Controller}
use disc_stakka_web.Web.{FormInt, flash, query, make_job}
use disc_stakka_web.Web.Invariant.{
  IsInvariant, Reopens, On, get_disc_lem, get_by_slot-Keeps, or_404_lem, make_job-Keeps, say-Keeps,
  form_slot-Keeps, with_conn-Keeps, start_job-Keeps,
}
use disc_stakka_web.Catalog.Recent.{recent_events}
use disc_stakka_web.Controller.Claims.{Claimed, busy_with, granted, Probe}
use disc_stakka_web.Web.Device.{probed, show_device, device_page, reconnected, device_reconnect}
use disc_stakka_web.Web.Pages.{
  IndexArgs, index, remember_view, show_catalogue, reconcile, disc_page, show_job, tracked,
  job_page, job_json,
}
use disc_stakka_web.Web.Hardware.{
  Planned, answer, plan, carry_out, eject_stored, plan_eject, disc_eject, return_out, plan_return,
  disc_return, add_free, add_slot, add, device_reset,
}

module _ (J : Controller → Conn → Type 0) (reopen : Reopens J) where
  remember_view-Keeps : (arg : Option (List ℕ)) → Keeps (On J) (remember_view arg)
  unfolding remember_view
  remember_view-Keeps arg = record { holds = λ s p. p }

  show_catalogue-Keeps :
      (S : Sqlite) (args : IndexArgs) (view : View) → Keeps (On J) (show_catalogue S args view)
  unfolding show_catalogue query count_discs list_discs category_counts platform_counts stats
  show_catalogue-Keeps S args view = with_conn-Keeps J reopen (record { holds = λ s p. p })

  pub index-Keeps : (S : Sqlite) (args : IndexArgs) → Keeps (On J) (index S args)
  unfolding index
  index-Keeps S args = bind_lem (remember_view-Keeps args.view) (show_catalogue-Keeps S args)

  pub reconcile-Keeps : (S : Sqlite) → Keeps (On J) (reconcile S)
  unfolding reconcile query list_discs
  reconcile-Keeps S = with_conn-Keeps J reopen (record { holds = λ s p. p })

  pub disc_page-Keeps : (id : ℕ) → Keeps (On J) (disc_page id)
  unfolding disc_page
  disc_page-Keeps id = with_conn-Keeps J reopen (
      bind_lem (get_disc_lem J id) (λ row. or_404_lem J id row _ (λ disc. pure_lem _ (λ s p. p.0))))

  show_job-Keeps : (polls : Bool) (snap : Option Snapshot) → Keeps (On J) (show_job polls snap)
  unfolding flash
  show_job-Keeps polls none = record { holds = λ s p. p }
  show_job-Keeps polls (some snap) = record { holds = λ s p. p }

  pub job_page-Keeps : (id : JobId) (polls : Bool) → Keeps (On J) (job_page id polls)
  unfolding job_page
  job_page-Keeps id polls = bind_lem (gets_lem (tracked id) (λ s p. p)) (show_job-Keeps polls)

  pub job_json-Keeps : (id : JobId) → Keeps (On J) (job_json id)
  unfolding job_json
  job_json-Keeps id = record { holds = λ s p. p }

  probed-Keeps : (r : Outcome (Claimed Probe)) → Keeps (On J) (probed r)
  probed-Keeps (ok (granted p)) = pure_lem _ (λ s p. p)
  probed-Keeps (ok (busy_with ref)) = record { holds = λ s p. p }
  probed-Keeps (raised e) =
      if_lem (is_device_error e) (λ _. pure_lem _ (λ s p. p)) (λ _. raise_lem e (λ s p. p))
  probed-Keeps running = fuel_lem (λ s p. p)

  show_device-Keeps : (shown : Option Probe × Option Text) → Keeps (On J) (show_device shown)
  unfolding query recent_events
  show_device-Keeps shown = with_conn-Keeps J reopen (record { holds = λ s p. p })

  pub device_page-Keeps : (r : Outcome (Claimed Probe)) → Keeps (On J) (device_page r)
  unfolding device_page
  device_page-Keeps r = bind_lem (probed-Keeps r) show_device-Keeps

  reconnected-Keeps : (r : Outcome (Claimed Done)) → Keeps (On J) (reconnected r)
  unfolding flash
  reconnected-Keeps (ok (granted d)) = record { holds = λ s p. p }
  reconnected-Keeps (ok (busy_with ref)) = record { holds = λ s p. p }
  reconnected-Keeps (raised e) =
      if_lem (is_device_error e) (λ _. record { holds = λ s p. p }) (λ _. raise_lem e (λ s p. p))
  reconnected-Keeps running = fuel_lem (λ s p. p)

  pub device_reconnect-Keeps : (r : Outcome (Claimed Done)) → Keeps (On J) (device_reconnect r)
  unfolding device_reconnect
  device_reconnect-Keeps r = bind_lem (reconnected-Keeps r) (λ _. pure_lem _ (λ s p. p))

  pub add_page-Keeps : Keeps (On J) (add none)
  unfolding add query free_slots next_free_slot
  add_page-Keeps = with_conn-Keeps J reopen (record { holds = λ s p. p })

module _ (J : Controller → Conn → Type 0) (inv : IsInvariant J) where
  carry_out-Keeps : (planned : Planned) → Keeps (On J) (carry_out planned)
  carry_out-Keeps (answer r) = pure_lem r (λ s p. p)
  carry_out-Keeps (plan job runner) = start_job-Keeps J inv job runner

  plan_eject-Keeps : (id : ℕ) (row : Option Disc) → Keeps (On J) (plan_eject id row)
  unfolding flash make_job
  plan_eject-Keeps id none = pure_lem _ (λ s p. p)
  plan_eject-Keeps id (some disc) = by_status disc.status
    where
      by_status : (status : Status) → Keeps (On J) (eject_stored status id disc)
      by_status out = record { holds = λ s p. p }
      by_status stored = record { holds = λ s p. p }

  plan_return-Keeps : (id : ℕ) (row : Option Disc) → Keeps (On J) (plan_return id row)
  unfolding flash make_job
  plan_return-Keeps id none = pure_lem _ (λ s p. p)
  plan_return-Keeps id (some disc) = by_status disc.status
    where
      by_status : (status : Status) → Keeps (On J) (return_out status id disc)
      by_status out = record { holds = λ s p. p }
      by_status stored = record { holds = λ s p. p }

  row-Keeps : (id : ℕ) → Keeps (On J) (query (get_disc id))
  unfolding query get_disc
  row-Keeps id = record { holds = λ s p. p }

  pub disc_eject-Keeps : (id : ℕ) → Keeps (On J) (disc_eject id)
  unfolding disc_eject
  disc_eject-Keeps id =
      bind_lem (with_conn-Keeps J inv.on_reopen (bind_lem (row-Keeps id) (plan_eject-Keeps id)))
        carry_out-Keeps

  pub disc_return-Keeps : (id : ℕ) → Keeps (On J) (disc_return id)
  unfolding disc_return
  disc_return-Keeps id =
      bind_lem (with_conn-Keeps J inv.on_reopen (bind_lem (row-Keeps id) (plan_return-Keeps id)))
        carry_out-Keeps

  add_free-Keeps : (slot : ℕ) (row : Option Disc) → Keeps (On J) (add_free slot row)
  add_free-Keeps slot (some disc) = say-Keeps J _ _
  add_free-Keeps slot none =
      bind_lem (make_job-Keeps J _ _ _ _) (λ job. start_job-Keeps J inv job _)

  add_slot-Keeps : (slot : Option ℕ) → Keeps (On J) (add_slot slot)
  add_slot-Keeps none = pure_lem _ (λ s p. p)
  add_slot-Keeps (some slot) = bind_lem (get_by_slot-Keeps J slot) (add_free-Keeps slot)

  pub add-Keeps : (field : Option FormInt) → Keeps (On J) (add field)
  unfolding add
  add-Keeps none = add_page-Keeps J inv.on_reopen
  add-Keeps (some field) =
      with_conn-Keeps J inv.on_reopen (bind_lem (form_slot-Keeps J field) add_slot-Keeps)

  pub device_reset-Keeps : Keeps (On J) device_reset
  unfolding device_reset
  device_reset-Keeps = bind_lem (make_job-Keeps J _ _ _ _) (λ job. start_job-Keeps J inv job _)
