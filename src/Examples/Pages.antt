-- ===== src/Examples/Pages.antt =====
-- The listing, its counts and the lists of categories, at concrete inputs.
use mathlib.Core.List.{Perm}
use mathlib.Core.List.Perm
use disc_stakka_web.Base.{
  filter, ℕ, ◌+◌, ◌≤◌, Bool, false, Option, none, some, List, length, ◌≡◌, refl,
}
use disc_stakka_web.Effect.{Text, chars, ok}
use disc_stakka_web.Slots.{slot_max}
use disc_stakka_web.Catalog.Listing.{
  Sqlite, IsSorting, Filter, by_slot, IsInOrder, covers, page_size, page_count, pages, rows_of,
  count_discs, list_discs, listing, selects, pages_show_the_listing,
}
use disc_stakka_web.Catalog.Slots.{free_slots, all_free}
use disc_stakka_web.Catalog.Stats.{Stats, stats, stats_agree}
use disc_stakka_web.Catalog.Taxonomy.{
  codes, same_codes, strip, or_empty, category, categories, platform, is_games,
}
use disc_stakka_web.Catalog.Taxonomy.Canonical.{IsCanonical, IsConsole, labels_keep_their_spelling}
use disc_stakka_web.Examples.Inputs.{conn}
use disc_stakka_web.Examples.Catalogue.{conn-IsSound}

abbrev pub same_text : Text → Text → Bool
same_text (chars a) (chars b) = same_codes a b
same_text _ _ = false

-- A database that keeps the order of the rows.
abbrev pub sqlite : Sqlite
sqlite = record { like = same_text; equals = same_text; by_title = λ ds. ds }

sqlite-IsSorting : IsSorting sqlite
sqlite-IsSorting = record { by_title-perm = λ ds. Perm.rfl }

abbrev everything : Filter
everything = record { query = none; status = none; category = none; platform = none }

one_disc : (count_discs sqlite everything conn).0 ≡ ok 1
unfolding count_discs selects
one_disc = refl

pages_show_the_listing_example :
    (pages
        (λ page. rows_of (list_discs sqlite page (page_size covers) everything by_slot conn).0)
        (page_count covers 1)
      ≡ listing sqlite everything by_slot conn.live.discs)
    × Perm
        (listing sqlite everything by_slot conn.live.discs)
        (filter (selects sqlite everything) conn.live.discs)
    × IsInOrder by_slot (listing sqlite everything by_slot conn.live.discs)
pages_show_the_listing_example =
    pages_show_the_listing sqlite sqlite-IsSorting covers everything by_slot conn 1 one_disc

abbrev counts : Stats
counts = record { total = 1; out = 0; free = 99 }

stats_are_counts : (stats conn).0 ≡ ok counts
unfolding stats
stats_are_counts = refl

abbrev slots : List ℕ
slots = all_free 100 1 conn.live.discs

slots_are_free : (free_slots conn).0 ≡ ok slots
unfolding free_slots
slots_are_free = refl

stats_agree_example :
    (length slots ≡ counts.free)
    × (counts.total + counts.free ≡ slot_max)
    × (counts.out ≤ counts.total)
stats_agree_example = stats_agree conn counts slots conn-IsSound stats_are_counts slots_are_free

abbrev label : Option (List ℕ)
label = some (codes " video GAMES ")

abbrev console : Option (List ℕ)
console = some (codes "wii u")

labels_keep_their_spelling_example :
    IsCanonical (strip (or_empty label)) categories (category label)
    × IsConsole (is_games (category label)) console (platform (category label) console)
    × (category (category label) ≡ category label)
    × (platform (category label) (platform (category label) console)
        ≡ platform (category label) console)
labels_keep_their_spelling_example = labels_keep_their_spelling console label
