-- ===== src/Catalog/Art/Files.antt =====
-- discstakka/catalog/art.py, lines 133 to 207: how a cover is stored, replaced and removed. Pillow, the
-- random stems and whether the file system obeys are a parameter; the directory is a function from stem
-- and suffix to the picture of the file.
use disc_stakka_web.Base.{
  ℕ, ◌+◌, ◌*◌, ◌/◌, Bool, true, false, ◌&&◌, ◌||◌, ltb, if◌then◌else◌, Option, none, some, List, [],
  ◌∷◌, length, take,
}
use disc_stakka_web.Effect.{
  format, nil, num, art_error, os_error, ok, M, Done, ◌>>=◌, ◌>>◌, pure, raise, skip,
}
use disc_stakka_web.Flows.{say}
use disc_stakka_web.Catalog.Art.{max_bytes, Network, Fetcher, Fetch, fetch_url}
use disc_stakka_web.Catalog.Taxonomy.{codes, same_codes, strip, or_empty}

abbrev pub thumb_px : ℕ
thumb_px = 160

abbrev pub full_px : ℕ
full_px = 500

pub data Suffix : Type 0 where
  thumb full : Suffix

-- `decode` is `Image.open` and `load`, with `none` for an exception. `fresh_stem` is
-- `uuid.uuid4().hex[:12]`; `can_write` and `can_remove` tell whether the next call raises `OSError`.
pub record Imaging (W I : Type 0) : Type 0 where
  pub decode : List ℕ → Option I
  pub mode : I → List ℕ
  pub to_rgba : I → I
  pub on_white : I → I
  pub to_rgb : I → I
  pub thumbnail : ℕ → I → I
  pub fresh_stem : W → List ℕ × W
  pub can_write : W → Bool × W
  pub can_remove : W → Bool × W

abbrev pub Directory : Type 0 → Type 0
Directory I = List ℕ → Suffix → Option I

pub record Studio (W I : Type 0) : Type 0 where
  pub fetcher : Fetcher W
  pub files : Directory I

abbrev pub same_suffix : Suffix → Suffix → Bool
same_suffix thumb thumb = true
same_suffix full full = true
same_suffix _ _ = false

-- A directory in which one file is what is given.
abbrev pub put_file : {I : Type 0} → List ℕ → Suffix → Option I → Directory I → Directory I
put_file stem suffix content files other kind =
    if same_codes other stem && same_suffix kind suffix then content else files other kind

abbrev pub Shop : Type 0 → Type 0 → Type 0 → Type 0
Shop W I A = M (Studio W I) A

module _ {W I : Type 0} where
  -- A call of the fetching part.
  abbrev pub fetching : {A : Type 0} → Fetch W A → Shop W I A
  fetching m s = ((m s.fetcher).0, record s { fetcher = (m s.fetcher).1 })

  -- What the outside says next.
  unfoldable pub ask : {A : Type 0} → (W → A × W) → Shop W I A
  ask f s =
      let r = f s.fetcher.world in
      (ok r.0, record s { fetcher = record (s.fetcher) { world = r.1 } })

  unfoldable pub set_file : List ℕ → Suffix → Option I → Shop W I Done
  set_file stem suffix content s =
      (ok tt, record s { files = put_file stem suffix content s.files })

  module _ (X : Imaging W I) where
    -- `_flatten`
    unfoldable pub flatten : I → I
    flatten img =
        if same_codes (X.mode img) (codes "RGBA")
          || same_codes (X.mode img) (codes "LA")
          || same_codes (X.mode img) (codes "P")
        then X.on_white (X.to_rgba img)
        else X.to_rgb img

    abbrev pub set_if : Bool → List ℕ → Suffix → I → Shop W I Done
    set_if false stem suffix img = raise os_error
    set_if true stem suffix img = set_file stem suffix (some img)

    -- `copy.save`
    unfoldable pub save_copy : List ℕ → Suffix → ℕ → I → Shop W I Done
    save_copy stem suffix px img =
        ask X.can_write >>= λ obeys. set_if obeys stem suffix (X.thumbnail px img)

    -- `stem or uuid…`
    abbrev pub stem_or_fresh : List ℕ → Shop W I (List ℕ)
    stem_or_fresh [] = ask X.fresh_stem
    stem_or_fresh (c ∷ cs) = pure (c ∷ cs)

    abbrev pub store_image : Option I → Option (List ℕ) → Shop W I (List ℕ)
    store_image none stem =
        raise (art_error (say "That file is not an image this server can read."))
    store_image (some img) stem = do
      name ← stem_or_fresh (or_empty stem)
      save_copy name thumb thumb_px (flatten img)
      save_copy name full full_px (flatten img)
      pure name

    unfoldable pub store : List ℕ → Option (List ℕ) → Shop W I (List ℕ)
    store bytes stem = store_image (X.decode bytes) stem

    abbrev pub clear_if : Bool → List ℕ → Suffix → Shop W I Done
    clear_if false stem suffix = skip
    clear_if true stem suffix = set_file stem suffix none

    -- `os.remove`, whose `OSError` is passed over.
    unfoldable pub remove_file : List ℕ → Suffix → Shop W I Done
    remove_file stem suffix = ask X.can_remove >>= λ obeys. clear_if obeys stem suffix

    abbrev pub remove_stem : List ℕ → Shop W I Done
    remove_stem [] = skip
    remove_stem (c ∷ cs) = remove_file (c ∷ cs) thumb >> remove_file (c ∷ cs) full

    unfoldable pub remove : Option (List ℕ) → Shop W I Done
    remove stem = remove_stem (or_empty stem)

    -- `upload.read`, of a file that has a name.
    abbrev pub read_upload : List ℕ → Shop W I (List ℕ)
    read_upload content =
        if ltb max_bytes (length (take (max_bytes + 1) content))
        then raise (
            art_error
              (format "That file is larger than %d MB." (num (max_bytes / (1_024 * 1_024)) nil)))
        else pure (take (max_bytes + 1) content)

    abbrev pub store_unless_empty : Option (List ℕ) → List ℕ → Shop W I (Option (List ℕ))
    store_unless_empty replacing [] = pure none
    store_unless_empty replacing (b ∷ bs) = do
      stem ← store (b ∷ bs) none
      remove replacing
      pure (some stem)

    module _ (N : Network W) where
      abbrev pub data_from_url : List ℕ → Shop W I (List ℕ)
      data_from_url [] = pure []
      data_from_url (c ∷ cs) = fetching (fetch_url N (strip (c ∷ cs)))

      abbrev pub data_of : Option (List ℕ) → Option (List ℕ) → Shop W I (List ℕ)
      data_of (some content) url = read_upload content
      data_of none url = data_from_url (or_empty url)

      unfoldable pub ingest :
          Option (List ℕ) → Option (List ℕ) → Option (List ℕ) → Shop W I (Option (List ℕ))
      ingest upload url replacing = data_of upload url >>= store_unless_empty replacing
