-- ===== src/Examples/Covers.antt =====
-- Fetching and replacing a cover, at a network that redirects once and then sends a picture.
use disc_stakka_web.Base.{ℕ, zero, suc, ◌+◌, true, false, Option, none, some, List, [], ◌∷◌, refl}
use disc_stakka_web.Effect.Triple.{After}
use disc_stakka_web.Catalog.Taxonomy.{codes, or_empty}
use disc_stakka_web.Catalog.Art.{Address, Reply, Network, Fetcher, fetch_url}
use disc_stakka_web.Catalog.Art.Fetching.{count_requests, IsFetched, fetch_asks_public_hosts}
use disc_stakka_web.Catalog.Art.Files.{Imaging, Studio, ingest}
use disc_stakka_web.Catalog.Art.Storing.{AreKept, IsReplaced}
use disc_stakka_web.Catalog.Art.Ingest.{ingest_loses_no_cover}

abbrev public_address : Address
public_address = record {
  written = codes "93.184.216.34";
  is_private = false;
  is_loopback = false;
  is_link_local = false;
  is_reserved = false;
  is_multicast = false;
  is_unspecified = false;
}

abbrev picture : Reply
picture = record {
  is_redirect = false;
  is_permanent_redirect = false;
  status_code = 200;
  location = [];
  content_type = codes "image/png; q=1";
  chunks = (1 ∷ 2 ∷ []) ∷ (3 ∷ []) ∷ [];
  breaks = false;
}

-- The world is the number of requests that were answered.
abbrev reply : ℕ → Reply
reply zero = record picture { is_redirect = true; location = codes "https://b.example/" }
reply (suc n) = picture

abbrev network : Network ℕ
network = record {
  urlparse = λ url. some (record { scheme = codes "https"; hostname = url });
  getaddrinfo = λ host w. (some (public_address ∷ []), w);
  get = λ url w. (some (reply w), suc w);
}

abbrev fetcher : Fetcher ℕ
fetcher = record { world = 0; asked = [] }

abbrev url : List ℕ
url = codes "https://a.example/"

fetch_asks_public_hosts_example :
    IsFetched network
      (count_requests fetcher.asked + 4)
      (fetch_url network url fetcher).0
      (fetch_url network url fetcher).1
fetch_asks_public_hosts_example = fetch_asks_public_hosts network url fetcher tt

-- A picture is its data; the outside obeys.
abbrev imaging : Imaging ℕ (List ℕ)
imaging = record {
  decode = some;
  mode = λ img. codes "RGBA";
  to_rgba = λ img. img;
  on_white = λ img. img;
  to_rgb = λ img. img;
  thumbnail = λ px img. px ∷ img;
  fresh_stem = λ w. (codes "c0ffee", suc w);
  can_write = λ w. (true, w);
  can_remove = λ w. (true, w);
}

abbrev studio : Studio ℕ (List ℕ)
studio = record { fetcher = fetcher; files = λ stem suffix. some stem }

abbrev old : Option (List ℕ)
old = some (codes "0ddba11")

ingest_loses_no_cover_example :
    After
      (λ _. ⊥)
      (λ stem t. IsReplaced imaging studio.files stem t.files)
      (λ _ t. AreKept imaging (or_empty old) studio.files t.files)
      (ingest imaging network none (some url) old studio).0
      (ingest imaging network none (some url) old studio).1
ingest_loses_no_cover_example =
    ingest_loses_no_cover imaging network none (some url) old studio (λ w. refl) tt
