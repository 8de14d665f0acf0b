-- ===== src/Catalog/Recent.antt =====
-- `recent_events` of discstakka/catalog/db.py (lines 157 to 162).
use disc_stakka_web.Base.{ℕ, Option, none, some, List, [], ◌∷◌, leb, if◌then◌else◌, take, map}
use disc_stakka_web.Effect.{Text, gets}
use disc_stakka_web.Catalog.Db.{Disc, Event, Query, find_disc, title_of}

-- `LEFT JOIN disc`
abbrev pub disc_title : Option ℕ → List Disc → Option Text
disc_title none ds = none
disc_title (some id) ds = title_of (find_disc id ds)

-- `ORDER BY e.at DESC, e.id DESC`, of events that come with the largest id first.
abbrev pub insert_by_time : Event → List Event → List Event
insert_by_time e [] = e ∷ []
insert_by_time e (f ∷ fs) =
    let rest = insert_by_time e fs in if leb f.at e.at then e ∷ f ∷ fs else f ∷ rest

abbrev pub sort_by_time : List Event → List Event
sort_by_time [] = []
sort_by_time (e ∷ es) = insert_by_time e (sort_by_time es)

unfoldable pub recent_events : ℕ → Query (List (Event × Option Text))
recent_events limit =
    gets λ c.
      map (λ e. (e, disc_title e.disc_id c.live.discs)) (take limit (sort_by_time c.live.events))
