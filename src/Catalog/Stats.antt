-- ===== src/Catalog/Stats.antt =====
-- The counts of the catalogue page (discstakka/catalog/db.py, lines 165 to 194).
use disc_stakka_web.Base.{
  ℕ, zero, suc, ◌+◌, ◌-◌, ◌≤◌, Bool, true, false, ◌&&◌, ◌==◌, ltb, leb, if◌then◌else◌, Option, none,
  some, List, [], ◌∷◌, length, filter, ◌≡◌, refl, arith, ap, ◌∙◌, sym,
}
use disc_stakka_web.Effect.{Text, Outcome, ok, gets}
use disc_stakka_web.Slots.{slot_min, slot_max}
use disc_stakka_web.Catalog.Db.{Disc, stored, out, Conn, Query, is_some}
use disc_stakka_web.Catalog.Valid.{IsTable, IsSound}
use disc_stakka_web.Catalog.Slots.{all_free, free_slots, is_taken}
use disc_stakka_web.Catalog.Listing.{Sqlite, column}
use disc_stakka_web.Flows.{say}

abbrev pub is_out : Disc → Bool
is_out d = elim d.status [ stored ↦ false | out ↦ true ]

pub record Stats : Type 0 where
  pub total : ℕ
  pub out : ℕ
  pub free : ℕ

unfoldable pub stats : Query Stats
stats = gets λ c. record {
  total = length c.live.discs;
  out = length (filter is_out c.live.discs);
  free = slot_max - length c.live.discs;
}

-- `GROUP BY` a column that is not `NULL`.
abbrev pub bump : (Text → Text → Bool) → Text → List (Text × ℕ) → List (Text × ℕ)
bump same t [] = (t, 1) ∷ []
bump same t ((u, n) ∷ rest) =
    let later = bump same t rest in if same t u then (u, n + 1) ∷ rest else (u, n) ∷ later

abbrev pub bump_some : (Text → Text → Bool) → Option Text → List (Text × ℕ) → List (Text × ℕ)
bump_some same none groups = groups
bump_some same (some t) groups = bump same t groups

abbrev pub group_by : (Text → Text → Bool) → (Disc → Option Text) → List Disc → List (Text × ℕ)
group_by same column [] = []
group_by same column (d ∷ ds) = bump_some same (column d) (group_by same column ds)

-- `taxonomy.GAMES`
abbrev pub games : Text
games = say "Video games"

module _ (S : Sqlite) where
  unfoldable pub category_counts : Query (List (Text × ℕ))
  category_counts = gets (λ c. group_by S.equals (λ d. d.category) c.live.discs)

  abbrev pub is_game : Disc → Bool
  is_game d = column (S.equals games) d.category

  unfoldable pub platform_counts : Query (List (Text × ℕ))
  platform_counts = gets (λ c. group_by S.equals (λ d. d.platform) (filter is_game c.live.discs))

-- The discs whose slot is one of `n` from `low` on, and those that have one slot.
abbrev is_within : ℕ → ℕ → Disc → Bool
is_within low n d = leb low d.slot && ltb d.slot (low + n)

abbrev has_slot : ℕ → Disc → Bool
has_slot slot d = d.slot == slot

count_one :
    (slot : ℕ) (ds : List Disc)
    → IsTable ds
    → length (filter (has_slot slot) ds) ≡ (if is_taken slot ds then 1 else 0)
count_one slot [] h = refl
count_one slot (d ∷ ds) h = ground (arith, count_one slot ds h.3, h.1)

count_split :
    (low n : ℕ) (ds : List Disc)
    → length (filter (is_within low (suc n)) ds)
      ≡ length (filter (has_slot low) ds) + length (filter (is_within (low + 1) n) ds)
count_split low n [] = refl
count_split low n (d ∷ ds) = ground (arith, count_split low n ds)

count_none : (low : ℕ) (ds : List Disc) → length (filter (is_within low 0) ds) ≡ 0
count_none low [] = refl
count_none low (d ∷ ds) = ground (arith, count_none low ds)

-- Of `n` slots, those that are free and those that have a disc.
count_slots :
    (n low : ℕ) (ds : List Disc)
    → IsTable ds
    → length (all_free n low ds) + length (filter (is_within low n) ds) ≡ n
count_slots zero low ds h = omega (arith, count_none low ds)
count_slots (suc n) low ds h =
    let rest = count_slots n (low + 1) ds h in
    let one = count_one low ds h in let split = count_split low n ds in ground arith

count_all : (ds : List Disc) → IsTable ds → length (filter (is_within slot_min 100) ds) ≡ length ds
count_all [] h = refl
count_all (d ∷ ds) h = ground (arith, count_all ds h.3, h.0)

length-filter : (p : Disc → Bool) (ds : List Disc) → length (filter p ds) ≤ length ds
length-filter p [] = omega arith
length-filter p (d ∷ ds) = ground (arith, length-filter p ds)

abbrev slots_or_none : Outcome (List ℕ) → List ℕ
slots_or_none (ok slots) = slots
slots_or_none _ = []

abbrev stats_or : Stats → Outcome Stats → Stats
stats_or s (ok t) = t
stats_or s _ = s

-- On sound tables the number of free slots that the catalogue page shows is the number of slots that
-- `free_slots` lists, with the discs they make up the hundred slots, and no more discs are out than
-- there are.
pub stats_agree :
    (c : Conn) (s : Stats) (slots : List ℕ)
    → IsSound c
    → (stats c).0 ≡ ok s
    → (free_slots c).0 ≡ ok slots
    → (length slots ≡ s.free) × (s.total + s.free ≡ slot_max) × (s.out ≤ s.total)
unfolding stats free_slots
stats_agree c s slots h e e' =
    let ds = c.live.discs in
    let same = ap (stats_or s) e in
    let total : length ds ≡ s.total = ap (λ (t : Stats). t.total) same in
    let free : slot_max - length ds ≡ s.free = ap (λ (t : Stats). t.free) same in
    let taken_out : length (filter is_out ds) ≡ s.out = ap (λ (t : Stats). t.out) same in
    let listed : length (all_free 100 1 ds) ≡ length slots =
      ap (λ r. length (slots_or_none r)) e' in
    let all = count_all ds h.0.0 in
    let both = count_slots 100 1 ds h.0.0 in let few = length-filter is_out ds in omega arith

-- The sum of the counts of a grouping.
abbrev pub sum_counts : List (Text × ℕ) → ℕ
sum_counts [] = 0
sum_counts ((t, n) ∷ rest) = n + sum_counts rest

sum_counts-bump :
    (same : Text → Text → Bool) (t : Text) (groups : List (Text × ℕ))
    → sum_counts (bump same t groups) ≡ sum_counts groups + 1
sum_counts-bump same t [] = omega arith
sum_counts-bump same t ((u, n) ∷ rest) = ground (arith, sum_counts-bump same t rest)

abbrev groups_or_none : Outcome (List (Text × ℕ)) → List (Text × ℕ)
groups_or_none (ok groups) = groups
groups_or_none _ = []

abbrev is_classified : (Disc → Option Text) → Disc → Bool
is_classified key d = is_some (key d)

sum_counts-bump_some :
    (same : Text → Text → Bool) (t : Option Text) (groups : List (Text × ℕ))
    → sum_counts (bump_some same t groups) ≡ sum_counts groups + (if is_some t then 1 else 0)
sum_counts-bump_some same none groups = omega arith
sum_counts-bump_some same (some t) groups = sum_counts-bump same t groups

sum_counts-group_by :
    (same : Text → Text → Bool) (key : Disc → Option Text) (ds : List Disc)
    → sum_counts (group_by same key ds) ≡ length (filter (is_classified key) ds)
sum_counts-group_by same key [] = refl
sum_counts-group_by same key (d ∷ ds) = ground (
  arith,
  sum_counts-group_by same key ds,
  sum_counts-bump_some same (key d) (group_by same key ds),
)

module _ (S : Sqlite) where
  -- The counts beside the filters: over all categories they add up to the discs that have a category,
  -- and over all consoles to the games that have one.
  pub groups_count_the_classified :
      (c : Conn) (categories platforms : List (Text × ℕ))
      → (category_counts S c).0 ≡ ok categories
      → (platform_counts S c).0 ≡ ok platforms
      → (sum_counts categories ≡ length (filter (λ d. is_some d.category) c.live.discs))
        × (sum_counts platforms
            ≡ length (filter (λ d. is_some d.platform) (filter (is_game S) c.live.discs)))
  unfolding category_counts platform_counts
  groups_count_the_classified c categories platforms e e' = (
    sym (ap (λ r. sum_counts (groups_or_none r)) e)
        ∙ sum_counts-group_by S.equals (λ d. d.category) c.live.discs,
    sym (ap (λ r. sum_counts (groups_or_none r)) e')
        ∙ sum_counts-group_by S.equals (λ d. d.platform) (filter (is_game S) c.live.discs),
  )
