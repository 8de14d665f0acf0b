-- ===== src/Catalog/Art/Fetching.antt =====
-- discstakka/catalog/art.py: that fetching a cover ends, and what it asks of the network.
use disc_stakka_web.Base.{
  ℕ, zero, suc, ◌+◌, ◌≤◌, true, not, ◌||◌, ltb, Option, none, some, List, [], ◌∷◌, length, all, ◌≡◌,
  refl, sym, subst, arith,
}
use disc_stakka_web.Effect.{Exc, other_error, Outcome}
use disc_stakka_web.Effect.Triple.{
  After, Triple, bind_lem, pure_lem, raise_lem, skip_lem, if_lem, weaken,
}
use disc_stakka_web.Catalog.Art.{
  max_bytes, max_redirects, Parsed, Address, Reply, Network, Asked, resolved, requested, Fetcher,
  Fetch, is_local, is_web, check_addresses, check_infos, follow_to, follow, take_reply,
  unless_missing, check_host, check_url, resolve, check_public, request_url, fetch, fetch_url,
}
use disc_stakka_web.Catalog.Art.Reading.{Good, read_reply_lem}

-- No address of a resolved host is local.
abbrev pub ArePublic : Option (List Address) → Type 0
ArePublic none = ⊥
ArePublic (some addresses) = all (λ a. not (is_local a)) addresses ≡ true

-- How many requests there were.
abbrev pub count_requests : List Asked → ℕ
count_requests [] = 0
count_requests (resolved host infos ∷ rest) = count_requests rest
count_requests (requested url ∷ rest) = suc (count_requests rest)

module _ {W : Type 0} (N : Network W) where
  abbrev MayFetch : Option Parsed → List ℕ → Option (List Address) → Type 0
  MayFetch none host infos = ⊥
  MayFetch (some parsed) host infos =
      (is_web parsed.scheme ≡ true) × (parsed.hostname ≡ host) × ArePublic infos

  -- What was asked last was the URL's own host, and its addresses are public.
  abbrev IsChecked : List ℕ → List Asked → Type 0
  IsChecked url [] = ⊥
  IsChecked url (requested other ∷ rest) = ⊥
  IsChecked url (resolved host infos ∷ rest) = MayFetch (N.urlparse url) host infos

  -- Right before every request its own host was checked.
  abbrev pub AreChecked : List Asked → Type 0
  AreChecked [] = Unit
  AreChecked (resolved host infos ∷ rest) = AreChecked rest
  AreChecked (requested url ∷ rest) = IsChecked url rest × AreChecked rest

  -- The requests were checked, and there were at most so many.
  abbrev pub Fetched : ℕ → Fetcher W → Type 0
  Fetched most s = AreChecked s.asked × (count_requests s.asked ≤ most)

  module _ (K : ℕ) where
    -- A call that does not run out of fuel.
    abbrev Guards :
        {A : Type 0} → (Fetcher W → Type 0) → Fetch W A → (A → Fetcher W → Type 0) → Type 0
    Guards P m Q = Triple (λ _. ⊥) P m Q (λ _. Fetched K)

    check_addresses_lem :
        (P : Fetcher W → Type 0) (addresses : List Address)
        → ((s : Fetcher W) → P s → Fetched K s)
        → Guards P (check_addresses addresses) (λ _ s. P s × ArePublic (some addresses))
    unfolding check_addresses
    check_addresses_lem P [] h = skip_lem (λ s p. (p, refl))
    check_addresses_lem P (a ∷ rest) h =
        if_lem (is_local a) (λ e. raise_lem _ h)
          λ e.
            weaken (check_addresses_lem P rest h) (λ s p. p)
              (λ _ s q. (q.0, ground (arith, e, q.1))) (λ _ s q. q)

    check_infos_lem :
        (P : Fetcher W → Type 0) (host : List ℕ) (infos : Option (List Address))
        → ((s : Fetcher W) → P s → Fetched K s)
        → Guards P (check_infos host infos) (λ _ s. P s × ArePublic infos)
    check_infos_lem P host none h = raise_lem _ h
    check_infos_lem P host (some infos) h = check_addresses_lem P infos h

    -- The state in which the number of redirects is `seen`.
    abbrev Before : ℕ → Fetcher W → Type 0
    Before seen s =
        AreChecked s.asked × (count_requests s.asked + 4 ≤ K + seen) × (seen ≤ max_redirects)

    Before-Fetched : (seen : ℕ) (s : Fetcher W) → Before seen s → Fetched K s
    Before-Fetched seen s p = (p.0, omega (arith, p.1, p.2))

    abbrev Ready : ℕ → List ℕ → Fetcher W → Type 0
    Ready seen url s = Before seen s × IsChecked url s.asked

    resolve_lem :
        (seen : ℕ) (host : List ℕ)
        → Guards (Before seen) (resolve N host) (λ infos s.
          Before seen s
          × ((url : List ℕ) → MayFetch (N.urlparse url) host infos → IsChecked url s.asked))
    unfolding resolve
    resolve_lem seen host = record { holds = λ s p. (p, λ url m. m) }

    request_lem :
        (seen : ℕ) (url : List ℕ)
        → Guards (Ready seen url) (request_url N url) (λ _ s.
          AreChecked s.asked × (count_requests s.asked + 3 ≤ K + seen) × (seen ≤ max_redirects))
    unfolding request_url
    request_lem seen url = record { holds = λ s p. ((p.1, p.0.0), omega (arith, p.0.1), p.0.2) }

    -- After the request of the URL that `seen` redirects have led to.
    abbrev Requested : ℕ → Fetcher W → Type 0
    Requested seen s =
        AreChecked s.asked × (count_requests s.asked + 3 ≤ K + seen) × (seen ≤ max_redirects)

    Requested-Fetched : (seen : ℕ) (s : Fetcher W) → Requested seen s → Fetched K s
    Requested-Fetched seen s p = (p.0, omega (arith, p.1, p.2))

    follow_to_lem :
        (P : Fetcher W → Type 0) (location : List ℕ) (next : Fetch W (List ℕ))
        → ((s : Fetcher W) → P s → Fetched K s)
        → Guards P next (Good (Fetched K))
        → Guards P (follow_to location next) (Good (Fetched K))
    follow_to_lem P [] next h n = raise_lem _ h
    follow_to_lem P (c ∷ cs) next h n = n

    follow_lem :
        (seen : ℕ) (resp : Reply) (next : Fetch W (List ℕ))
        → (suc seen ≤ max_redirects → Guards (Before (seen + 1)) next (Good (Fetched K)))
        → Guards (Requested seen) (follow seen resp next) (Good (Fetched K))
    unfolding follow
    follow_lem seen resp next n =
        if_lem (ltb max_redirects (seen + 1)) (λ e. raise_lem _ (Requested-Fetched seen))
          λ e. follow_to_lem (Requested seen) resp.location next (Requested-Fetched seen) (
            weaken (n (ground (arith, e))) (λ s p. (p.0, omega (arith, p.1), ground (arith, e)))
              (λ _ s q. q) (λ _ s q. q))

    take_reply_lem :
        (seen : ℕ) (resp : Reply) (next : Fetch W (List ℕ))
        → (suc seen ≤ max_redirects → Guards (Before (seen + 1)) next (Good (Fetched K)))
        → Guards (Requested seen) (take_reply seen resp next) (Good (Fetched K))
    take_reply_lem seen resp next n =
        if_lem (resp.is_redirect || resp.is_permanent_redirect) (λ _. follow_lem seen resp next n)
          (λ _.
            weaken (read_reply_lem (Fetched K) resp) (Requested-Fetched seen) (λ _ s q. q)
              (λ _ s q. q))

    missing_lem :
        {A : Type 0} (P : Fetcher W → Type 0) (e : Exc) (o : Option A)
        → ((s : Fetcher W) → P s → Fetched K s)
        → Guards P (unless_missing e o) (λ a s. P s × (o ≡ some a))
    missing_lem P e none h = raise_lem e h
    missing_lem P e (some a) h = pure_lem a (λ s p. (p, refl))

    check_host_lem :
        (P : Fetcher W → Type 0) (host : List ℕ)
        → ((s : Fetcher W) → P s → Fetched K s)
        → Guards P (check_host host) (λ _. P)
    check_host_lem P [] h = raise_lem _ h
    check_host_lem P (c ∷ cs) h = skip_lem (λ s p. p)

    check_url_lem :
        (P : Fetcher W → Type 0) (parsed : Parsed)
        → ((s : Fetcher W) → P s → Fetched K s)
        → Guards P (check_url parsed) (λ _ s. P s × (is_web parsed.scheme ≡ true))
    unfolding check_url
    check_url_lem P parsed h =
        if_lem (is_web parsed.scheme)
          (λ e.
            weaken (check_host_lem P parsed.hostname h) (λ s p. p) (λ _ s q. (q, e)) (λ _ s q. q))
          (λ _. raise_lem _ h)

    check_public_lem :
        (seen : ℕ) (url : List ℕ) (parsed : Parsed)
        → N.urlparse url ≡ some parsed
        → is_web parsed.scheme ≡ true
        → Guards (Before seen) (check_public N parsed.hostname) (λ _. Ready seen url)
    unfolding check_public
    check_public_lem seen url parsed e web = bind_lem (resolve_lem seen parsed.hostname) λ infos.
        weaken (check_infos_lem _ parsed.hostname infos (λ s p. Before-Fetched seen s p.0))
          (λ s p. p)
          (λ _ s q. (
            q.0.0,
            q.0.1 url (subst (λ o. MayFetch o parsed.hostname infos) (sym e) (web, refl, q.1)),
          ))
          (λ _ s q. q)

    Before-known :
        (seen : ℕ) (url : List ℕ) (parsed : Parsed)
        → (N.urlparse url ≡ some parsed
            → is_web parsed.scheme ≡ true
            → Guards (Before seen) (check_public N parsed.hostname) (λ _. Ready seen url))
        → Guards
            (λ s. (Before seen s × (N.urlparse url ≡ some parsed)) × (is_web parsed.scheme ≡ true))
            (check_public N parsed.hostname)
            (λ _. Ready seen url)
    Before-known seen url parsed h = record { holds = λ s p. (h p.0.1 p.1).holds s p.0.0 }

    fetch_lem :
        (fuel seen : ℕ) (url : List ℕ)
        → 4 ≤ fuel + seen
        → seen ≤ max_redirects
        → Guards (Before seen) (fetch N fuel seen url) (Good (Fetched K))
    unfolding fetch
    fetch_lem zero seen url h h' = absurd (omega (arith, h, h'))
    fetch_lem (suc fuel) seen url h h' =
        bind_lem (missing_lem (Before seen) _ (N.urlparse url) (Before-Fetched seen)) λ parsed.
          bind_lem (check_url_lem _ parsed (λ s p. Before-Fetched seen s p.0)) λ _.
            bind_lem (Before-known seen url parsed (check_public_lem seen url parsed)) λ _.
              bind_lem (request_lem seen url) λ answer.
                bind_lem (missing_lem (Requested seen) other_error answer (Requested-Fetched seen))
                  λ resp.
                    weaken
                      (take_reply_lem seen resp (fetch N fuel (seen + 1) resp.location) (λ more.
                        fetch_lem fuel (seen + 1) resp.location (omega (arith, h))
                          (omega (arith, more))))
                      (λ s p. p.0) (λ _ s q. q) (λ _ s q. q)

  -- What is true after `fetch_url`.
  abbrev pub IsFetched : ℕ → Outcome (List ℕ) → Fetcher W → Type 0
  IsFetched most r s =
      After (λ _. ⊥) (λ bytes s. Fetched most s × (1 ≤ length bytes) × (length bytes ≤ max_bytes))
        (λ _. Fetched most) r s

-- From a record in which every request was checked, `fetch_url` ends for every URL, with at most four
-- requests more, whatever the network answers and wherever it redirects to. Every request then recorded
-- was made right after its own host was resolved, by http or https, and no address the host was resolved
-- to was private, loopback, link-local, reserved, multicast or unspecified. If it returns data, they are
-- from 1 byte to 8 megabytes.
pub fetch_asks_public_hosts :
    {W : Type 0} (N : Network W) (url : List ℕ) (s : Fetcher W)
    → AreChecked N s.asked
    → IsFetched N (count_requests s.asked + 4) (fetch_url N url s).0 (fetch_url N url s).1
unfolding fetch_url
fetch_asks_public_hosts N url s h =
    (fetch_lem N (count_requests s.asked + 4) 4 0 url (omega arith) (omega arith)).holds s
      (h, omega arith, omega arith)
