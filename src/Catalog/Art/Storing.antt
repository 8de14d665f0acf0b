-- ===== src/Catalog/Art/Storing.antt =====
-- discstakka/catalog/art.py: what storing a cover and removing another leave in the directory.
use disc_stakka_web.Base.{
  ℕ, Bool, true, false, Option, none, some, List, [], ◌∷◌, ◌≡◌, refl, ap, ◌∙◌, arith,
}
use disc_stakka_web.Effect.Triple.{Triple, bind_lem, pure_lem, raise_lem, skip_lem}
use disc_stakka_web.Catalog.Taxonomy.{same_codes}
use disc_stakka_web.Catalog.Taxonomy.Canonical.{same_codes_refl}
use disc_stakka_web.Catalog.Art.Files.{
  thumb_px, full_px, Suffix, thumb, full, Imaging, Directory, Studio, put_file, Shop, ask, set_file,
  flatten, set_if, save_copy, store_image, store, clear_if, remove_file, remove_stem,
}

same_codes-sym : (xs ys : List ℕ) → same_codes xs ys ≡ same_codes ys xs
same_codes-sym [] [] = refl
same_codes-sym [] (b ∷ ys) = refl
same_codes-sym (a ∷ xs) [] = refl
same_codes-sym (a ∷ xs) (b ∷ ys) = ground (arith, same_codes-sym xs ys)

module _ {I : Type 0} where
  put_file-other :
      (stem other : List ℕ) (suffix kind : Suffix) (content : Option I) (files : Directory I)
      → same_codes other stem ≡ false
      → put_file stem suffix content files other kind ≡ files other kind
  put_file-other stem other suffix kind content files h = ground (arith, h)

  put_file-same :
      (stem : List ℕ) (suffix : Suffix) (content : Option I) (files : Directory I)
      → put_file stem suffix content files stem suffix ≡ content
  put_file-same stem thumb content files = ground (arith, same_codes_refl stem)
  put_file-same stem full content files = ground (arith, same_codes_refl stem)

  put_file-thumb :
      (stem : List ℕ) (content : Option I) (files : Directory I)
      → put_file stem full content files stem thumb ≡ files stem thumb
  put_file-thumb stem content files = ground (arith, same_codes_refl stem)

module _ {W I : Type 0} (X : Imaging W I) where
  -- Both sizes of one picture, under a stem.
  abbrev pub HasBoth : List ℕ → Directory I → Type 0
  HasBoth name files =
      (img : I) × (files name thumb ≡ some (X.thumbnail thumb_px img))
      × (files name full ≡ some (X.thumbnail full_px img))

  -- The files of a stem are those of another directory.
  abbrev pub AreKept : List ℕ → Directory I → Directory I → Type 0
  AreKept old before files =
      (files old thumb ≡ before old thumb) × (files old full ≡ before old full)

  -- What `ingest` has done to the directory, by the stem that it returns.
  abbrev pub IsReplaced : Directory I → Option (List ℕ) → Directory I → Type 0
  IsReplaced before none files = files ≡ before
  IsReplaced before (some name) files = HasBoth name files

  module _ (old : List ℕ) (before : Directory I) where
    abbrev pub OnFiles : (Directory I → Type 0) → Studio W I → Type 0
    OnFiles P s = P s.files

    abbrev pub Ends :
        {A : Type 0} → (Directory I → Type 0) → Shop W I A → (A → Directory I → Type 0) → Type 0
    Ends P m Q =
        Triple (λ _. ⊥) (OnFiles P) m (λ a. OnFiles (Q a)) (λ _. OnFiles (AreKept old before))

    ask_lem : {A : Type 0} (P : Directory I → Type 0) (f : W → A × W) → Ends P (ask f) (λ _. P)
    unfolding ask
    ask_lem P f = record { holds = λ s p. p }

    set_file_lem :
        (P Q : Directory I → Type 0) (stem : List ℕ) (suffix : Suffix) (content : Option I)
        → ((files : Directory I) → P files → Q (put_file stem suffix content files))
        → Ends P (set_file stem suffix content) (λ _. Q)
    unfolding set_file
    set_file_lem P Q stem suffix content h = record { holds = λ s p. h s.files p }

    save_copy_lem :
        (P Q : Directory I → Type 0) (stem : List ℕ) (suffix : Suffix) (px : ℕ) (img : I)
        → ((files : Directory I) → P files → AreKept old before files)
        → ((files : Directory I)
            → P files
            → Q (put_file stem suffix (some (X.thumbnail px img)) files))
        → Ends P (save_copy X stem suffix px img) (λ _. Q)
    unfolding save_copy
    save_copy_lem P Q stem suffix px img kept h = bind_lem (ask_lem P X.can_write) by_answer
      where
        by_answer :
            (obeys : Bool) → Ends P (set_if X obeys stem suffix (X.thumbnail px img)) (λ _. Q)
        by_answer false = raise_lem _ (λ s p. kept s.files p)
        by_answer true = set_file_lem P Q stem suffix _ h

    -- After the first copy, and after both.
    abbrev One : List ℕ → I → Directory I → Type 0
    One name img files =
        AreKept old before files
        × (files name thumb ≡ some (X.thumbnail thumb_px img))
        × (same_codes old name ≡ false)

    abbrev Two : List ℕ → I → Directory I → Type 0
    Two name img files = One name img files × (files name full ≡ some (X.thumbnail full_px img))

    first_copy :
        (name : List ℕ) (img : I) (files : Directory I)
        → (files ≡ before) × (same_codes old name ≡ false)
        → One name img (put_file name thumb (some (X.thumbnail thumb_px img)) files)
    first_copy name img files p = (
      (
        put_file-other name old thumb thumb _ files p.1 ∙ ap (λ F. F old thumb) p.0,
        put_file-other name old thumb full _ files p.1 ∙ ap (λ F. F old full) p.0,
      ),
      put_file-same name thumb _ files,
      p.1,
    )

    second_copy :
        (name : List ℕ) (img : I) (files : Directory I)
        → One name img files
        → Two name img (put_file name full (some (X.thumbnail full_px img)) files)
    second_copy name img files p = (
      (
        (
          put_file-other name old full thumb _ files p.2 ∙ p.0.0,
          put_file-other name old full full _ files p.2 ∙ p.0.1,
        ),
        put_file-thumb name _ files ∙ p.1,
        p.2,
      ),
      put_file-same name full _ files,
    )

    -- A name that is not the old one.
    fresh_lem :
        ((w : W) → same_codes old (X.fresh_stem w).0 ≡ false)
        → Ends
            (λ files. files ≡ before)
            (ask X.fresh_stem)
            (λ name files. (files ≡ before) × (same_codes old name ≡ false))
    unfolding ask
    fresh_lem new = record { holds = λ s p. (p, new s.fetcher.world) }

    pub store_lem :
        ((w : W) → same_codes old (X.fresh_stem w).0 ≡ false)
        → (bytes : List ℕ)
        → Ends
            (λ files. files ≡ before)
            (store X bytes none)
            (λ name files. HasBoth name files × (same_codes old name ≡ false))
    unfolding store
    store_lem new bytes = decoded (X.decode bytes)
      where
        decoded :
            (image : Option I)
            → Ends
                (λ files. files ≡ before)
                (store_image X image none)
                (λ name files. HasBoth name files × (same_codes old name ≡ false))
        decoded none = raise_lem _ (λ s p. (ap (λ F. F old thumb) p, ap (λ F. F old full) p))
        decoded (some img) = bind_lem (fresh_lem new) λ name.
            bind_lem
              (save_copy_lem _ (One name (flatten X img)) name thumb thumb_px (flatten X img)
                (λ files p. (ap (λ F. F old thumb) p.0, ap (λ F. F old full) p.0))
                (first_copy name (flatten X img)))
              λ _.
                bind_lem
                  (save_copy_lem _ (Two name (flatten X img)) name full full_px (flatten X img)
                    (λ files p. p.0) (second_copy name (flatten X img)))
                  (λ _. pure_lem name (λ s p. ((flatten X img, p.0.1, p.1), p.0.2)))

    -- The new files stay when those of the old stem go.
    abbrev pub New : List ℕ → Directory I → Type 0
    New name files = HasBoth name files × (same_codes old name ≡ false)

    clear_New :
        (name : List ℕ) (suffix : Suffix) (files : Directory I)
        → New name files
        → New name (put_file old suffix none files)
    clear_New name suffix files p =
        let apart = same_codes-sym name old ∙ p.1 in
        (
          (
            p.0.0,
            put_file-other old name suffix thumb none files apart ∙ p.0.1,
            put_file-other old name suffix full none files apart ∙ p.0.2,
          ),
          p.1,
        )

    remove_file_lem :
        (name : List ℕ) (suffix : Suffix)
        → Ends (New name) (remove_file X old suffix) (λ _. New name)
    unfolding remove_file
    remove_file_lem name suffix = bind_lem (ask_lem (New name) X.can_remove) by_answer
      where
        by_answer : (obeys : Bool) → Ends (New name) (clear_if X obeys old suffix) (λ _. New name)
        by_answer false = skip_lem (λ s p. p)
        by_answer true = set_file_lem (New name) (New name) old suffix none (clear_New name suffix)

  -- Every stem, the empty one included.
  pub remove_stem_lem :
      (before : Directory I) (old name : List ℕ)
      → Ends old before (New old before name) (remove_stem X old) (λ _. New old before name)
  remove_stem_lem before [] name = skip_lem (λ s p. p)
  remove_stem_lem before (c ∷ cs) name =
      bind_lem (remove_file_lem (c ∷ cs) before name thumb)
        (λ _. remove_file_lem (c ∷ cs) before name full)
