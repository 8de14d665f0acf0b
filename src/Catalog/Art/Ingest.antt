-- ===== src/Catalog/Art/Ingest.antt =====
-- discstakka/catalog/art.py: replacing a cover, as `ingest` does, loses none.
use disc_stakka_web.Base.{
  ℕ, ◌+◌, false, ltb, length, take, Option, none, some, List, [], ◌∷◌, ◌≡◌, refl, ap,
}
use disc_stakka_web.Effect.{Exc, Outcome, ok, raised, running}
use disc_stakka_web.Effect.Triple.{After, Triple, bind_lem, pure_lem, raise_lem, if_lem}
use disc_stakka_web.Catalog.Taxonomy.{same_codes, strip, or_empty}
use disc_stakka_web.Catalog.Art.{max_bytes, Network, Fetcher, fetch_url}
use disc_stakka_web.Catalog.Art.Fetching.{AreChecked, fetch_asks_public_hosts}
use disc_stakka_web.Catalog.Art.Files.{
  thumb, full, Imaging, Directory, Studio, Shop, remove, store_unless_empty, data_from_url, data_of,
  ingest,
}
use disc_stakka_web.Catalog.Art.Storing.{AreKept, IsReplaced, Ends, store_lem, remove_stem_lem}

module _ {W I : Type 0} (X : Imaging W I) where
  module _ (N : Network W) (replacing : Option (List ℕ)) (before : Directory I) where
    abbrev replaced : List ℕ
    replaced = or_empty replacing

    abbrev Start : Studio W I → Type 0
    Start s = (s.files ≡ before) × AreChecked N s.fetcher.asked

    -- A call that leaves the directory alone.
    abbrev Leaves : {A : Type 0} → (Studio W I → Type 0) → Shop W I A → Type 0
    Leaves P m =
        Triple (λ _. ⊥) P m (λ _ s. s.files ≡ before) (λ _ s. AreKept X replaced before s.files)

    kept : (s : Studio W I) → s.files ≡ before → AreKept X replaced before s.files
    kept s p = (ap (λ F. F replaced thumb) p, ap (λ F. F replaced full) p)

    After-fetching :
        (Q : List ℕ → Fetcher W → Type 0) (E : Exc → Fetcher W → Type 0) (r : Outcome (List ℕ))
        (f : Fetcher W) (s : Studio W I)
        → s.files ≡ before
        → After (λ _. ⊥) Q E r f
        → After
            (λ _. ⊥)
            (λ _ s. s.files ≡ before)
            (λ _ s. AreKept X replaced before s.files)
            r
            (record s { fetcher = f })
    After-fetching Q E (ok bytes) f s p h = p
    After-fetching Q E (raised e) f s p h = kept s p
    After-fetching Q E running f s p h = h

    data_from_url_lem : (url : List ℕ) → Leaves Start (data_from_url X N url)
    data_from_url_lem [] = pure_lem [] (λ s p. p.0)
    data_from_url_lem (c ∷ cs) = record {
      holds = λ s p.
          let r = fetch_url N (strip (c ∷ cs)) s.fetcher in
          After-fetching _ _ r.0 r.1 s p.0
            (fetch_asks_public_hosts N (strip (c ∷ cs)) s.fetcher p.1);
    }

    data_of_lem : (upload url : Option (List ℕ)) → Leaves Start (data_of X N upload url)
    data_of_lem (some content) url =
        if_lem (ltb max_bytes (length (take (max_bytes + 1) content)))
          (λ _. raise_lem _ (λ s p. kept s p.0)) (λ _. pure_lem _ (λ s p. p.0))
    data_of_lem none url = data_from_url_lem (or_empty url)

    store_unless_empty_lem :
        ((w : W) → same_codes replaced (X.fresh_stem w).0 ≡ false)
        → (bytes : List ℕ)
        → Ends X replaced before
            (λ files. files ≡ before)
            (store_unless_empty X replacing bytes)
            (IsReplaced X before)
    unfolding remove
    store_unless_empty_lem new [] = pure_lem none (λ s p. p)
    store_unless_empty_lem new (b ∷ bs) =
        bind_lem (store_lem X replaced before new (b ∷ bs)) λ stem.
          bind_lem (remove_stem_lem X before replaced stem) (λ _. pure_lem (some stem) (λ s p. p.0))

-- For an upload or a URL, either or both of which may be missing, where no stem that is drawn is that of
-- the cover to be replaced and the record of the network has only checked requests: `ingest` ends. If it
-- raises, the two files of the cover to be replaced are what they were. If it returns a stem, both sizes
-- of one picture stand under it, also after the old files have gone; if it returns none, no file has
-- changed. This holds whatever is sent, whichever writes fail and whichever removals do.
pub ingest_loses_no_cover :
    {W I : Type 0} (X : Imaging W I) (N : Network W) (upload url replacing : Option (List ℕ))
    (s : Studio W I)
    → ((w : W) → same_codes (or_empty replacing) (X.fresh_stem w).0 ≡ false)
    → AreChecked N s.fetcher.asked
    → After
        (λ _. ⊥)
        (λ stem t. IsReplaced X s.files stem t.files)
        (λ _ t. AreKept X (or_empty replacing) s.files t.files)
        (ingest X N upload url replacing s).0
        (ingest X N upload url replacing s).1
unfolding ingest
ingest_loses_no_cover X N upload url replacing s new checked =
    (bind_lem (data_of_lem X N replacing s.files upload url)
        (store_unless_empty_lem X N replacing s.files new)).holds
      s (refl, checked)
