-- ===== src/Catalog/Taxonomy/Canonical.antt =====
-- discstakka/catalog/taxonomy.py: what `category` and `platform` promise of a text that a form or a link sends.
use disc_stakka_web.Base.{
  ℕ, Bool, true, false, ◌||◌, if◌then◌else◌, Option, none, some, List, [], ◌∷◌, ◌≡◌, refl, arith,
}
use disc_stakka_web.Catalog.Taxonomy.{
  same_codes, or_empty, fits, first_fit, strip, match_known, categories, platforms, category,
  platform, is_games,
}

-- The list has this text, and one of its texts has this spelling but for capitals.
abbrev pub has : List ℕ → List (List ℕ) → Bool
has value [] = false
has value (candidate ∷ known) = same_codes value candidate || has value known

abbrev pub knows : List ℕ → List (List ℕ) → Bool
knows value [] = false
knows value (candidate ∷ known) = fits value candidate || knows value known

-- What `_match` promises of its result.
abbrev pub IsCanonical : List ℕ → List (List ℕ) → Option (List ℕ) → Type 0
IsCanonical value known none = knows value known ≡ false
IsCanonical value known (some c) = (has c known ≡ true) × (fits value c ≡ true)

pub same_codes_refl : (cs : List ℕ) → same_codes cs cs ≡ true
same_codes_refl [] = refl
same_codes_refl (c ∷ cs) = ground (arith, same_codes_refl cs)

IsCanonical-cons :
    (value candidate : List ℕ) (known : List (List ℕ)) (r : Option (List ℕ))
    → fits value candidate ≡ false
    → IsCanonical value known r
    → IsCanonical value (candidate ∷ known) r
IsCanonical-cons value candidate known none e h = ground (arith, e, h)
IsCanonical-cons value candidate known (some c) e h = (ground (arith, h.0), h.1)

first_fit-IsCanonical :
    (value : List ℕ) (known : List (List ℕ)) → IsCanonical value known (first_fit value known)
first_fit-IsCanonical value [] = refl
first_fit-IsCanonical value (candidate ∷ known) =
    pick (fits value candidate) (first_fit value known) refl (first_fit-IsCanonical value known)
  where
    pick :
        (b : Bool) (r : Option (List ℕ))
        → fits value candidate ≡ b
        → IsCanonical value known r
        → IsCanonical value (candidate ∷ known) (if b then some candidate else r)
    pick true r e h = (ground (arith, same_codes_refl candidate), e)
    pick false r e h = IsCanonical-cons value candidate known r e h

match_known-IsCanonical :
    (value : Option (List ℕ)) (known : List (List ℕ))
    → IsCanonical (strip (or_empty value)) known (match_known value known)
unfolding match_known
match_known-IsCanonical value known = first_fit-IsCanonical (strip (or_empty value)) known

-- Every text of the first list is the first of the second that it fits.
abbrev AllMatch : List (List ℕ) → List (List ℕ) → Type 0
AllMatch [] known = Unit
AllMatch (c ∷ cs) known = (match_known (some c) known ≡ some c) × AllMatch cs known

match_again :
    (value : List ℕ) (known all : List (List ℕ))
    → match_known none all ≡ none
    → AllMatch known all
    → match_known (first_fit value known) all ≡ first_fit value known
match_again value [] all e h = e
match_again value (candidate ∷ known) all e h =
    pick (fits value candidate) (first_fit value known) h.0 (match_again value known all e h.1)
  where
    pick :
        (b : Bool) (r : Option (List ℕ))
        → match_known (some candidate) all ≡ some candidate
        → match_known r all ≡ r
        → match_known (if b then some candidate else r) all ≡ (if b then some candidate else r)
    pick true r here later = here
    pick false r here later = later

match_twice :
    (value : Option (List ℕ)) (known : List (List ℕ))
    → match_known none known ≡ none
    → AllMatch known known
    → match_known (match_known value known) known ≡ match_known value known
unfolding match_known
match_twice value known e h = match_again (strip (or_empty value)) known known e h

categories-AllMatch : AllMatch categories categories
unfolding match_known
categories-AllMatch = (refl, (refl, (refl, (refl, (refl, tt)))))

platforms-AllMatch : AllMatch platforms platforms
unfolding match_known
platforms-AllMatch = (
  refl,
  (
    refl,
    (
      refl,
      (
        refl,
        (
          refl,
          (
            refl,
            (
              refl,
              (refl, (refl, (refl, (refl, (refl, (refl, (refl, (refl, (refl, (refl, tt)))))))))),
            ),
          ),
        ),
      ),
    ),
  ),
)

no_category : match_known none categories ≡ none
unfolding match_known
no_category = refl

no_platform : match_known none platforms ≡ none
unfolding match_known
no_platform = refl

-- What `platform` promises in a category that is games or not.
abbrev pub IsConsole : Bool → Option (List ℕ) → Option (List ℕ) → Type 0
IsConsole false value r = r ≡ none
IsConsole true value r = IsCanonical (strip (or_empty value)) platforms r

platform-IsConsole :
    (b : Bool) (value : Option (List ℕ))
    → IsConsole b value (if b then match_known value platforms else none)
platform-IsConsole true value = match_known-IsCanonical value platforms
platform-IsConsole false value = refl

platform_twice :
    (b : Bool) (value : Option (List ℕ))
    → (if b then match_known (if b then match_known value platforms else none) platforms else none)
      ≡ (if b then match_known value platforms else none)
platform_twice true value = match_twice value platforms no_platform platforms-AllMatch
platform_twice false value = refl

-- A value, and the category that `category` makes of a label, each a text or missing: `category`
-- gives a text of its list that agrees with the stripped label but for capitals, or nothing where no
-- text of the list does. `platform` does the same with its own list where that category is games, and
-- gives nothing for every other one. Both give back unchanged what they have given.
pub labels_keep_their_spelling :
    (value label : Option (List ℕ))
    → IsCanonical (strip (or_empty label)) categories (category label)
      × IsConsole (is_games (category label)) value (platform (category label) value)
      × (category (category label) ≡ category label)
      × (platform (category label) (platform (category label) value)
          ≡ platform (category label) value)
unfolding category platform
labels_keep_their_spelling value label = (
  match_known-IsCanonical label categories,
  platform-IsConsole (is_games (match_known label categories)) value,
  match_twice label categories no_category categories-AllMatch,
  platform_twice (is_games (match_known label categories)) value,
)
