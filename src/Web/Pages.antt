-- ===== src/Web/Pages.antt =====
-- app.py: the pages that only read (lines 161 to 214, 364 to 395, 441 to 449 and 532 to 540).
use disc_stakka_web.Base.{
  ℕ, zero, suc, ◌+◌, ◌-◌, Bool, true, false, ◌&&◌, ◌==◌, ltb, if◌then◌else◌, Option, none, some,
  List, [], ◌∷◌,
}
use disc_stakka_web.Effect.{Text, ◌>>=◌, ◌>>◌, pure, gets, modify}
use disc_stakka_web.Slots.{slot_min, slot_max}
use disc_stakka_web.Flows.{say}
use disc_stakka_web.Jobs
use disc_stakka_web.Jobs.{Job, JobId, Kind, eject, Phase, moving, presented, Snapshot}
use disc_stakka_web.Jobs.Registry
use disc_stakka_web.Catalog.Db.{Disc, get_disc}
use disc_stakka_web.Catalog.Listing.{
  Sqlite, Filter, Order, by_title, by_slot, View, covers, as_list, count_discs, list_discs,
  page_size, page_count,
}
use disc_stakka_web.Catalog.Stats.{stats, category_counts, platform_counts}
use disc_stakka_web.Catalog.Taxonomy.{codes, same_codes, category, platform}
use disc_stakka_web.Web.{
  Web, Server, Response, render, see_other, json, unknown_job, index_target, catalog_page,
  disc_view, job_view, reconcile_view, FormInt, not_int, negative, natural, warn_flash, flash,
  query, with_conn, or_404, stripped, or_none, to_text,
}

-- The query string of the catalogue page.
pub record IndexArgs : Type 0 where
  pub page : FormInt
  pub q : Option (List ℕ)
  pub status : Option (List ℕ)
  pub order : Option (List ℕ)
  pub view : Option (List ℕ)
  pub category : Option (List ℕ)
  pub platform : Option (List ℕ)

-- `max(1, _int_arg("page", 1))`
abbrev pub page_arg : FormInt → ℕ
page_arg not_int = 1
page_arg negative = 1
page_arg (natural n) = if ltb n 1 then 1 else n

abbrev pub order_arg : Option (List ℕ) → Order
order_arg none = by_slot
order_arg (some cs) = if same_codes cs (codes "title") then by_title else by_slot

abbrev pub status_arg : Option (List ℕ) → Option Text
status_arg none = none
status_arg (some cs) = or_none cs

unfoldable pub filter_of : IndexArgs → Filter
filter_of args = record {
  query = or_none (stripped args.q);
  status = status_arg args.status;
  category = to_text (category args.category);
  platform = to_text (platform (category args.category) args.platform);
}

-- The view that the session has after the request: one of `VIEWS` replaces it.
abbrev pub view_after : Option (List ℕ) → View → View
view_after none old = old
view_after (some cs) old =
    if same_codes cs (codes "covers")
    then covers
    else (if same_codes cs (codes "list") then as_list else old)

unfoldable pub remember_view : Option (List ℕ) → Web View
remember_view arg = modify (λ s. record s { view = view_after arg s.view }) >> gets (λ s. s.view)

module _ (S : Sqlite) where
  -- The page in a view.
  unfoldable pub show_catalogue : IndexArgs → View → Web Response
  unfolding filter_of
  show_catalogue args view = with_conn (do
    total ← query (count_discs S (filter_of args))
    discs ←
        query (
          list_discs S (page_arg args.page) (page_size view) (filter_of args)
            (order_arg args.order))
    categories ← query (category_counts S)
    platforms ← query (platform_counts S)
    counts ← query stats
    pure (
        render (
          catalog_page record {
            discs = discs;
            page = page_arg args.page;
            pages = page_count view total;
            total = total;
            filter = filter_of args;
            order = order_arg args.order;
            view = view;
            category_counts = categories;
            platform_counts = platforms;
            stats = counts;
          })))

  unfoldable pub index : IndexArgs → Web Response
  index args = remember_view args.view >>= show_catalogue args

  -- `by_slot.get(n)`: of rows with one slot the last.
  abbrev pub row_at : ℕ → List Disc → Option Disc
  row_at n [] = none
  row_at n (d ∷ ds) = elim (row_at n ds) [
    | some e ↦ some e
    | none ↦ (if d.slot == n then some d else none)
  ]

  abbrev pub slots_from : ℕ → ℕ → List Disc → List (ℕ × Option Disc)
  slots_from zero slot rows = []
  slots_from (suc count) slot rows = (slot, row_at slot rows) ∷ slots_from count (slot + 1) rows

  unfoldable pub reconcile : Web Response
  reconcile = with_conn (do
    rows ← query (
        list_discs S 1 slot_max
          record { query = none; status = none; category = none; platform = none } by_slot)
    pure (render (reconcile_view (slots_from (slot_max + 1 - slot_min) slot_min rows))))

unfoldable pub disc_page : ℕ → Web Response
disc_page id =
    with_conn (query (get_disc id) >>= λ row. or_404 row (λ disc. pure (render (disc_view disc))))

abbrev pub xhr_fallback_s : ℕ
xhr_fallback_s = 10

abbrev pub eject_fallback_s : ℕ
eject_fallback_s = 2

abbrev pub xhr_cookie_s : ℕ
xhr_cookie_s = 5

abbrev pub is_eject : Kind → Bool
is_eject eject = true
is_eject _ = false

-- `phase in EJECT_WATCHED`
abbrev pub is_watched : Phase → Bool
is_watched moving = true
is_watched presented = true
is_watched _ = false

-- `polls` is whether the cookie says "1".
unfoldable pub refresh_s : Bool → Snapshot → ℕ
refresh_s polls snap =
    if polls
    then (if is_eject snap.kind && is_watched snap.phase then eject_fallback_s else xhr_fallback_s)
    else (if snap.prompting then 1 else 2)

-- The snapshot of the job that the registry has under a number.
unfoldable pub tracked : JobId → Server → Option Snapshot
tracked id s = elim (Registry.get id s.controller.registry) [
  | none ↦ none
  | some ref ↦ some (Jobs.snapshot s.now_ms (s.controller.job_at ref))
]

abbrev pub show_job : Bool → Option Snapshot → Web Response
show_job polls none =
    flash (warn_flash (say "That job is no longer being tracked.")) >> pure (see_other index_target)
show_job polls (some snap) = pure (render (job_view snap (refresh_s polls snap)))

unfoldable pub job_page : JobId → Bool → Web Response
job_page id polls = gets (tracked id) >>= show_job polls

abbrev pub job_answer : Option Snapshot → Response
job_answer none = unknown_job
job_answer (some snap) = json snap xhr_cookie_s

unfoldable pub job_json : JobId → Web Response
job_json id = gets (λ s. job_answer (tracked id s))
