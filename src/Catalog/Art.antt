-- ===== src/Catalog/Art.antt =====
-- discstakka/catalog/art.py, lines 29 to 127: how a cover is fetched from a URL. Of the outside the code
-- uses `urlparse`, the resolver with `ipaddress`, and `requests.get`; these are a parameter. The state
-- records what was asked of the network, the newest first. Texts and data are lists of numbers.
pub mod Reading
pub mod Fetching
pub mod Files
pub mod Storing
pub mod Ingest
use disc_stakka_web.Base.{
  ℕ, zero, suc, ◌+◌, ◌*◌, ◌/◌, Bool, true, false, not, ◌&&◌, ◌||◌, ◌==◌, ltb, if◌then◌else◌, Option,
  none, some, List, [], ◌∷◌, ◌++◌, length, all,
}
use disc_stakka_web.Effect.{
  Text, chars, format, nil, num, text, Exc, art_error, value_error, other_error, Outcome, ok, M,
  Done, ◌>>=◌, ◌>>◌, pure, raise, skip, out_of_fuel, modify,
}
use disc_stakka_web.Flows.{say}
use disc_stakka_web.Catalog.Taxonomy.{codes, same_codes, strip}

abbrev pub max_bytes : ℕ
max_bytes = 8 * 1_024 * 1_024

abbrev pub max_redirects : ℕ
max_redirects = 3

-- What the code reads of a parsed URL; a host that is missing is empty.
pub record Parsed : Type 0 where
  pub scheme : List ℕ
  pub hostname : List ℕ

pub record Address : Type 0 where
  pub written : List ℕ
  pub is_private : Bool
  pub is_loopback : Bool
  pub is_link_local : Bool
  pub is_reserved : Bool
  pub is_multicast : Bool
  pub is_unspecified : Bool

-- A response; a header that is missing is empty. `breaks` says that the connection is lost after the
-- chunks that came.
pub record Reply : Type 0 where
  pub is_redirect : Bool
  pub is_permanent_redirect : Bool
  pub status_code : ℕ
  pub location : List ℕ
  pub content_type : List ℕ
  pub chunks : List (List ℕ)
  pub breaks : Bool

-- `urlparse`, where `none` is its `ValueError`; `getaddrinfo`, where `none` is its `gaierror`; and
-- `requests.get`, where `none` is an exception of `requests`.
pub record Network (W : Type 0) : Type 0 where
  pub urlparse : List ℕ → Option Parsed
  pub getaddrinfo : List ℕ → W → Option (List Address) × W
  pub get : List ℕ → W → Option Reply × W

pub data Asked : Type 0 where
  resolved : List ℕ → Option (List Address) → Asked
  requested : List ℕ → Asked

pub record Fetcher (W : Type 0) : Type 0 where
  pub world : W
  pub asked : List Asked

abbrev pub Fetch : Type 0 → Type 0 → Type 0
Fetch W A = M (Fetcher W) A

-- The condition of `_check_public`.
abbrev pub is_local : Address → Bool
is_local a =
    a.is_private || a.is_loopback || a.is_link_local || a.is_reserved || a.is_multicast
    || a.is_unspecified

-- `parsed.scheme in ("http", "https")`
abbrev pub is_web : List ℕ → Bool
is_web scheme = same_codes scheme (codes "http") || same_codes scheme (codes "https")

abbrev pub before_semicolon : List ℕ → List ℕ
before_semicolon [] = []
before_semicolon (c ∷ cs) = let rest = before_semicolon cs in if c == 59 then [] else c ∷ rest

abbrev pub starts_with : List ℕ → List ℕ → Bool
starts_with [] cs = true
starts_with (p ∷ ps) [] = false
starts_with (p ∷ ps) (c ∷ cs) = p == c && starts_with ps cs

abbrev pub type_or_unknown : List ℕ → Text
type_or_unknown [] = say "an unknown type"
type_or_unknown (c ∷ cs) = chars (c ∷ cs)

-- `ctype`
abbrev pub content_type_of : Reply → List ℕ
content_type_of resp = strip (before_semicolon resp.content_type)

module _ {W : Type 0} where
  abbrev pub art_fails : {A : Type 0} → Text → Fetch W A
  art_fails reason = raise (art_error reason)

  -- The loop over `infos`.
  unfoldable pub check_addresses : List Address → Fetch W Done
  check_addresses [] = skip
  check_addresses (a ∷ rest) =
      let later = check_addresses rest in
      if is_local a
      then art_fails (
          format
            "That URL points at a private or local address (%s), which this server will not fetch."
            (text (chars a.written) nil))
      else later

  abbrev pub check_infos : List ℕ → Option (List Address) → Fetch W Done
  check_infos host none = art_fails (format "Could not resolve %s" (text (chars host) nil))
  check_infos host (some infos) = check_addresses infos

  -- The loop over the chunks, with what was read so far.
  unfoldable pub read_chunks : List ℕ → List (List ℕ) → Fetch W (List ℕ)
  read_chunks bytes [] = pure bytes
  read_chunks bytes (chunk ∷ rest) =
      let later = read_chunks (bytes ++ chunk) rest in
      if ltb max_bytes (length (bytes ++ chunk))
      then art_fails
          (format "That image is larger than %d MB." (num (max_bytes / (1_024 * 1_024)) nil))
      else later

  abbrev pub unless_empty : List ℕ → Fetch W (List ℕ)
  unless_empty [] = art_fails (say "That URL returned an empty response.")
  unless_empty (b ∷ bs) = pure (b ∷ bs)

  abbrev pub unless_broken : Bool → List ℕ → Fetch W (List ℕ)
  unless_broken true bytes = raise other_error
  unless_broken false bytes = unless_empty bytes

  -- The part of `fetch_url` behind the redirects.
  unfoldable pub read_reply : Reply → Fetch W (List ℕ)
  read_reply resp =
      if not (resp.status_code == 200)
      then art_fails (format "That URL returned HTTP %d." (num resp.status_code nil))
      else (if starts_with (codes "image/") (content_type_of resp)
          then read_chunks [] resp.chunks >>= unless_broken resp.breaks
          else art_fails (
              format "That URL is %s, not an image."
                (text (type_or_unknown (content_type_of resp)) nil)))

  abbrev pub follow_to : List ℕ → Fetch W (List ℕ) → Fetch W (List ℕ)
  follow_to [] next = art_fails (say "Redirect without a destination.")
  follow_to (c ∷ cs) next = next

  -- A redirect, with the number of those before it.
  unfoldable pub follow : ℕ → Reply → Fetch W (List ℕ) → Fetch W (List ℕ)
  follow seen resp next =
      if ltb max_redirects (seen + 1)
      then art_fails (say "Too many redirects.")
      else follow_to resp.location next

  abbrev pub take_reply : ℕ → Reply → Fetch W (List ℕ) → Fetch W (List ℕ)
  take_reply seen resp next =
      if resp.is_redirect || resp.is_permanent_redirect
      then follow seen resp next
      else read_reply resp

  abbrev pub unless_missing : {A : Type 0} → Exc → Option A → Fetch W A
  unless_missing e none = raise e
  unless_missing e (some a) = pure a

  abbrev pub check_host : List ℕ → Fetch W Done
  check_host [] = art_fails (say "That does not look like a URL.")
  check_host (c ∷ cs) = skip

  unfoldable pub check_url : Parsed → Fetch W Done
  check_url parsed =
      if is_web parsed.scheme
      then check_host parsed.hostname
      else art_fails (say "Only http:// and https:// URLs are supported.")

  module _ (N : Network W) where
    unfoldable pub resolve : List ℕ → Fetch W (Option (List Address))
    resolve host s =
        let r = N.getaddrinfo host s.world in
        (ok r.0, record s { world = r.1; asked = resolved host r.0 ∷ s.asked })

    unfoldable pub check_public : List ℕ → Fetch W Done
    check_public host = resolve host >>= check_infos host

    unfoldable pub request_url : List ℕ → Fetch W (Option Reply)
    request_url url s =
        let r = N.get url s.world in
        (ok r.0, record s { world = r.1; asked = requested url ∷ s.asked })

    -- The loop of `fetch_url`, where `seen` is the number of redirects.
    unfoldable pub fetch : ℕ → ℕ → List ℕ → Fetch W (List ℕ)
    fetch zero seen url = out_of_fuel
    fetch (suc fuel) seen url = do
      parsed ← unless_missing (value_error (say "Invalid URL")) (N.urlparse url)
      check_url parsed
      check_public parsed.hostname
      answer ← request_url url
      resp ← unless_missing other_error answer
      take_reply seen resp (fetch fuel (seen + 1) resp.location)

    unfoldable pub fetch_url : List ℕ → Fetch W (List ℕ)
    fetch_url url = fetch (max_redirects + 1) 0 url
