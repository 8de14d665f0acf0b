-- ===== src/Catalog/Art/Reading.antt =====
-- discstakka/catalog/art.py: the size of what is read of a response. Reading keeps every property of the
-- record of the network.
use disc_stakka_web.Base.{
  ℕ, ◌≤◌, Bool, true, false, not, ◌==◌, ltb, List, [], ◌∷◌, ◌++◌, length, arith,
}
use disc_stakka_web.Effect.Triple.{Triple, bind_lem, pure_lem, raise_lem, if_lem}
use disc_stakka_web.Catalog.Art.{
  max_bytes, Reply, Fetcher, Fetch, starts_with, read_chunks, unless_empty, unless_broken,
  content_type_of, read_reply,
}
use disc_stakka_web.Catalog.Taxonomy.{codes}

module _ {W : Type 0} (I : Fetcher W → Type 0) where
  abbrev Reads : {A : Type 0} → (Fetcher W → Type 0) → Fetch W A → (A → Fetcher W → Type 0) → Type 0
  Reads P m Q = Triple (λ _. ⊥) P m Q (λ _. I)

  -- Data of a size that is taken.
  abbrev pub Good : List ℕ → Fetcher W → Type 0
  Good bytes s = I s × (1 ≤ length bytes) × (length bytes ≤ max_bytes)

  read_chunks_lem :
      (bytes : List ℕ) (chunks : List (List ℕ))
      → length bytes ≤ max_bytes
      → Reads I (read_chunks bytes chunks) (λ bytes s. I s × (length bytes ≤ max_bytes))
  unfolding read_chunks
  read_chunks_lem bytes [] h = pure_lem bytes (λ s p. (p, h))
  read_chunks_lem bytes (chunk ∷ rest) h =
      if_lem (ltb max_bytes (length (bytes ++ chunk))) (λ e. raise_lem _ (λ s p. p))
        (λ e. read_chunks_lem (bytes ++ chunk) rest (ground (arith, e)))

  unless_empty_lem :
      (bytes : List ℕ) → Reads (λ s. I s × (length bytes ≤ max_bytes)) (unless_empty bytes) Good
  unless_empty_lem [] = raise_lem _ (λ s p. p.0)
  unless_empty_lem (b ∷ bs) = pure_lem (b ∷ bs) (λ s p. (p.0, omega arith, p.1))

  unless_broken_lem :
      (breaks : Bool) (bytes : List ℕ)
      → Reads (λ s. I s × (length bytes ≤ max_bytes)) (unless_broken breaks bytes) Good
  unless_broken_lem true bytes = raise_lem _ (λ s p. p.0)
  unless_broken_lem false bytes = unless_empty_lem bytes

  pub read_reply_lem : (resp : Reply) → Reads I (read_reply resp) Good
  unfolding read_reply
  read_reply_lem resp =
      if_lem (not (resp.status_code == 200)) (λ e. raise_lem _ (λ s p. p))
        λ e.
          if_lem (starts_with (codes "image/") (content_type_of resp))
            (λ _.
              bind_lem (read_chunks_lem [] resp.chunks (omega arith))
                (unless_broken_lem resp.breaks))
            (λ _. raise_lem _ (λ s p. p))
