-- ===== src/Catalog/Listing.antt =====
-- The catalogue page: the filtered listing, page by page (discstakka/catalog/db.py, lines 84 to 128).
use mathlib.Core.Logic.{∥∥₁_elim}
use mathlib.Core.List.{Perm, Permᴰ}
use mathlib.Core.List.Permᴰ.{nil, cons, swap, trans}
use native.Mathlib.Nat.{ℕ_set}
use disc_stakka_web.Base.{
  ℕ, zero, suc, ◌+◌, ◌-◌, ◌*◌, ◌/◌, ◌≤◌, Bool, true, false, ◌&&◌, ◌||◌, ltb, if◌then◌else◌, Option,
  none, some, List, [], ◌++◌, length, take, drop, filter, take_all, take-add, ◌≡◌, refl, arith, ap,
  ◌∙◌, sym, subst,
}
use disc_stakka_web.Effect.{Text, Outcome, ok, gets}
use disc_stakka_web.Catalog.Db.{Disc, Status, stored, out, Conn, Query}
use disc_stakka_web.Catalog.BySlot.{
  sort_by_slot, IsBySlot, sort_by_slot-perm, sort_by_slot-IsBySlot,
}
use disc_stakka_web.Flows.{say}

-- What the statements leave to SQLite: `LIKE`, `=` on texts, and the order by title.
pub record Sqlite : Type 0 where
  pub like : Text → Text → Bool
  pub equals : Text → Text → Bool
  pub by_title : List Disc → List Disc

-- Sorting gives back the rows that there were, each as often as it was there.
pub record IsSorting (S : Sqlite) : Type 0 where
  pub by_title-perm : (ds : List Disc) → Perm (S.by_title ds) ds

-- The keywords of `_where`.
pub record Filter : Type 0 where
  pub query : Option Text
  pub status : Option Text
  pub category : Option Text
  pub platform : Option Text

pub data Order : Type 0 where
  by_title by_slot : Order

pub data View : Type 0 where
  covers as_list : View

abbrev pub per_page : ℕ
per_page = 12

abbrev pub per_page_list : ℕ
per_page_list = 25

abbrev pub status_text : Status → Text
status_text stored = say "stored"
status_text out = say "out"

-- A test of a column that may be `NULL`.
abbrev pub column : (Text → Bool) → Option Text → Bool
column test none = false
column test (some t) = test t

abbrev pub unless_none : Option Text → (Text → Bool) → Bool
unless_none none test = true
unless_none (some t) test = test t

module _ (S : Sqlite) where
  abbrev pub mentions : Text → Disc → Bool
  mentions q d =
      S.like q d.title
      || column (S.like q) d.subtitle
      || column (S.like q) d.notes
      || column (S.like q) d.category
      || column (S.like q) d.platform

  -- The condition that `_where` writes.
  unfoldable pub selects : Filter → Disc → Bool
  selects f d =
      unless_none f.query (λ q. mentions q d)
      && unless_none f.status (λ s. S.equals s (status_text d.status))
      && unless_none f.category (λ k. column (S.equals k) d.category)
      && unless_none f.platform (λ p. column (S.equals p) d.platform)

  abbrev pub arrange : Order → List Disc → List Disc
  arrange by_title ds = S.by_title ds
  arrange by_slot ds = sort_by_slot ds

  -- All that a filter shows, in order.
  unfoldable pub listing : Filter → Order → List Disc → List Disc
  listing f order ds = arrange order (filter (selects f) ds)

  unfoldable pub count_discs : Filter → Query ℕ
  count_discs f = gets (λ c. length (filter (selects f) c.live.discs))

  -- `LIMIT` and `OFFSET`, with `max(page, 1)`.
  unfoldable pub list_discs : ℕ → ℕ → Filter → Order → Query (List Disc)
  unfolding listing
  list_discs page size f order = gets λ c.
      take size
        (drop (((if ltb page 1 then 1 else page) - 1) * size) (listing f order c.live.discs))

-- What `index` of app.py takes for a page, and the number of pages that it shows.
abbrev pub page_size : View → ℕ
page_size as_list = per_page_list
page_size covers = per_page

abbrev pub ceil_pages : View → ℕ → ℕ
ceil_pages as_list total = (total + 24) / 25
ceil_pages covers total = (total + 11) / 12

unfoldable pub page_count : View → ℕ → ℕ
page_count view total = let pages = ceil_pages view total in if ltb pages 1 then 1 else pages

-- Lists that are permutations of each other are equally long.
length-Permᴰ : {l l' : List Disc} → Permᴰ l l' → length l ≡ length l'
length-Permᴰ nil = refl
length-Permᴰ (cons e d) = ap suc (length-Permᴰ d)
length-Permᴰ (swap e e') = refl
length-Permᴰ (trans d d') = length-Permᴰ d ∙ length-Permᴰ d'

length-Perm : {l l' : List Disc} → Perm l l' → length l ≡ length l'
length-Perm {l} {l'} p = ∥∥₁_elim p (ℕ_set (length l) (length l')) length-Permᴰ

-- The order by slot has the lower slots first; what the order by title is, is left to SQLite.
abbrev pub IsInOrder : Order → List Disc → Type 0
IsInOrder by_title ds = Unit
IsInOrder by_slot ds = IsBySlot ds

module _ (S : Sqlite) (sorting : IsSorting S) where
  arrange-perm : (order : Order) (ds : List Disc) → Perm (arrange S order ds) ds
  arrange-perm by_title ds = sorting.by_title-perm ds
  arrange-perm by_slot ds = sort_by_slot-perm ds

  arrange-IsInOrder : (order : Order) (ds : List Disc) → IsInOrder order (arrange S order ds)
  arrange-IsInOrder by_title ds = tt
  arrange-IsInOrder by_slot ds = sort_by_slot-IsBySlot ds

enough_pages : (view : View) (total : ℕ) → total ≤ page_count view total * page_size view
unfolding page_count
enough_pages as_list total = ground arith
enough_pages covers total = ground arith

-- The first pages, one after the other.
abbrev pub pages : (ℕ → List Disc) → ℕ → List Disc
pages page zero = []
pages page (suc n) = pages page n ++ page (suc n)

module _ (size : ℕ) (l : List Disc) where
  -- What the page of a number shows of a list.
  abbrev slice : ℕ → List Disc
  slice page = take size (drop (((if ltb page 1 then 1 else page) - 1) * size) l)

  slice-suc : (n : ℕ) → slice (suc n) ≡ take size (drop (n * size) l)
  slice-suc n =
      let e : ((if ltb (suc n) 1 then 1 else suc n) - 1) ≡ n = ground arith in
      ap (λ k. take size (drop (k * size) l)) e

  pages-slice : (n : ℕ) → pages slice n ≡ take (n * size) l
  pages-slice zero = let e : 0 ≡ 0 * size = omega arith in ap (λ k. take k l) e
  pages-slice (suc n) =
      let e : n * size + size ≡ suc n * size = omega arith in
      ap (λ xs. xs ++ slice (suc n)) (pages-slice n)
      ∙ ap (λ ys. take (n * size) l ++ ys) (slice-suc n)
      ∙ take-add (n * size) size l
      ∙ ap (λ k. take k l) e

-- What a query returns, and nothing of one that raises.
abbrev count_of : Outcome ℕ → ℕ
count_of (ok n) = n
count_of _ = 0

abbrev pub rows_of : Outcome (List Disc) → List Disc
rows_of (ok ds) = ds
rows_of _ = []

module _ (S : Sqlite) (sorting : IsSorting S) where
  -- The pages that the catalogue shows, as many as `index` makes of the count, are one after the
  -- other the listing; and the listing has exactly the discs of the table that the filter selects,
  -- each as often as the table has it, in the order by slot with the lower slots first. In both views
  -- and both orders, if SQLite sorts by title without losing or repeating a row.
  pub pages_show_the_listing :
      (view : View) (f : Filter) (order : Order) (c : Conn) (total : ℕ)
      → (count_discs S f c).0 ≡ ok total
      → (pages
            (λ page. rows_of (list_discs S page (page_size view) f order c).0)
            (page_count view total)
          ≡ listing S f order c.live.discs)
        × Perm (listing S f order c.live.discs) (filter (selects S f) c.live.discs)
        × IsInOrder order (listing S f order c.live.discs)
  unfolding count_discs list_discs listing
  pages_show_the_listing view f order c total counted =
      let shown = filter (selects S f) c.live.discs in
      let l = arrange S order shown in
      let same : length l ≡ total =
        length-Perm (arrange-perm S sorting order shown) ∙ ap count_of counted in
      let enough = enough_pages view total in
      (
        pages-slice (page_size view) l (page_count view total)
            ∙ take_all (page_count view total * page_size view) l
                (subst (λ k. k ≤ page_count view total * page_size view) (sym same) enough),
        arrange-perm S sorting order shown,
        arrange-IsInOrder S sorting order shown,
      )
