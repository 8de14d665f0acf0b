-- ===== src/Catalog/Taxonomy.antt =====
-- discstakka/catalog/taxonomy.py: the closed lists of categories and consoles. Texts are lists of code
-- points. `lower` maps the capitals of ASCII only: no other code point has a lower case that occurs in
-- the lists, so on both sides of the comparison of `_match` this decides it as `str.lower` does.
pub mod Canonical
use Prim.Native.Char.{code}
use disc_stakka_web.Base.{
  ℕ, ◌+◌, String, Bool, true, false, ◌&&◌, ◌||◌, ◌==◌, leb, if◌then◌else◌, Option, none, some, List,
  [], ◌∷◌, map, ◌≡◌, refl, arith,
}

abbrev pub codes : String → List ℕ
codes String.[] = []
codes (String.◌∷◌ c s) = code c ∷ codes s

-- `str.isspace` of a code point.
abbrev pub is_space : ℕ → Bool
is_space c =
    leb 9 c && leb c 13
    || leb 28 c && leb c 32
    || c == 0x85
    || c == 0xA0
    || c == 0x1680
    || leb 0x2000 c && leb c 0x200A
    || c == 0x2028
    || c == 0x2029
    || c == 0x202F
    || c == 0x205F
    || c == 0x3000

abbrev pub strip_left : List ℕ → List ℕ
strip_left [] = []
strip_left (c ∷ cs) = let rest = strip_left cs in if is_space c then rest else c ∷ cs

-- Blanks at the end go with the rest: a blank stays if something follows that stays.
abbrev pub put_unless_blank : ℕ → List ℕ → List ℕ
put_unless_blank c [] = if is_space c then [] else c ∷ []
put_unless_blank c (d ∷ ds) = c ∷ d ∷ ds

abbrev pub strip_right : List ℕ → List ℕ
strip_right [] = []
strip_right (c ∷ cs) = put_unless_blank c (strip_right cs)

abbrev pub strip : List ℕ → List ℕ
strip cs = strip_right (strip_left cs)

abbrev pub lower : ℕ → ℕ
lower c = if leb 65 c && leb c 90 then c + 32 else c

abbrev pub same_codes : List ℕ → List ℕ → Bool
same_codes [] [] = true
same_codes (c ∷ cs) (d ∷ ds) = c == d && same_codes cs ds
same_codes _ _ = false

-- `value or ""`
abbrev pub or_empty : Option (List ℕ) → List ℕ
or_empty none = []
or_empty (some cs) = cs

-- `value.lower() == candidate.lower()`
abbrev pub fits : List ℕ → List ℕ → Bool
fits value candidate = same_codes (map lower value) (map lower candidate)

-- The loop of `_match`.
abbrev pub first_fit : List ℕ → List (List ℕ) → Option (List ℕ)
first_fit value [] = none
first_fit value (candidate ∷ known) =
    let rest = first_fit value known in if fits value candidate then some candidate else rest

unfoldable pub match_known : Option (List ℕ) → List (List ℕ) → Option (List ℕ)
match_known value known = first_fit (strip (or_empty value)) known

abbrev pub games : List ℕ
games = codes "Video games"

abbrev pub categories : List (List ℕ)
categories = games ∷ codes "Music" ∷ codes "Movies" ∷ codes "Software" ∷ codes "Other" ∷ []

abbrev pub platforms : List (List ℕ)
platforms =
    codes "PC"
    ∷ codes "Mac"
    ∷ codes "PS1"
    ∷ codes "PS2"
    ∷ codes "PS3"
    ∷ codes "PS4"
    ∷ codes "PS5"
    ∷ codes "Xbox"
    ∷ codes "Xbox 360"
    ∷ codes "Xbox One"
    ∷ codes "Xbox Series"
    ∷ codes "Wii"
    ∷ codes "Wii U"
    ∷ codes "GameCube"
    ∷ codes "Dreamcast"
    ∷ codes "Saturn"
    ∷ codes "Other"
    ∷ []

unfoldable pub category : Option (List ℕ) → Option (List ℕ)
unfolding match_known
category value = match_known value categories

-- The test of `category_value != GAMES`; the category is one of the list or `None`.
abbrev pub is_games : Option (List ℕ) → Bool
is_games none = false
is_games (some cs) = same_codes cs games

unfoldable pub platform : Option (List ℕ) → Option (List ℕ) → Option (List ℕ)
unfolding match_known
platform category value = if is_games category then match_known value platforms else none
