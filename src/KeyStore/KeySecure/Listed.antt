-- ===== src/KeyStore/KeySecure/Listed.antt =====
-- The loop of List of the Gemalto key store, against a server that serves its names page by page.
use kes.Prelude.{
  ℕ, zero, suc, ◌+◌, ◌*◌, ◌%◌, ◌^◌, ◌≡◌, ◌≤◌, ◌<◌, refl, ap, true, false, none, some, List, [], ◌∷◌,
  ◌++◌, length, take, drop, take-length, ℤ, Text, text_eq, nat_eq, leb, ◌⊎◌, inl, inr, ◌==◌, arith,
}
use kes.Api.Errors.{ok}
use kes.KeyStore.Listing
use kes.KeyStore.KeySecure.{
  Response, Exchange, Page, Library, mib, limit, read_page, list_pages, list_start, list,
}

module _ {ℓ} {A : Type ℓ} where
  take_whole : (n : ℕ) (xs : List A) → take n xs ≡ take (length (take n xs)) xs
  take_whole zero xs = refl
  take_whole (suc n) [] = refl
  take_whole (suc n) (x ∷ xs) = ap (◌∷◌ x) (take_whole n xs)

  take_page :
      (n s : ℕ) (xs : List A)
      → take s xs ++ take n (drop s xs) ≡ take (s + length (take n (drop s xs))) xs
  take_page n zero xs =
      let e : 0 + length (take n xs) ≡ length (take n xs) = omega arith in rw e (take_whole n xs)
  take_page zero (suc s) [] = let e : suc s + 0 ≡ suc s = omega arith in rw e refl
  take_page (suc n) (suc s) [] = let e : suc s + 0 ≡ suc s = omega arith in rw e refl
  take_page n (suc s) (x ∷ xs) =
      let l = length (take n (drop s xs)) in
      let e : suc s + l ≡ suc (s + l) = omega arith in rw e (ap (◌∷◌ x) (take_page n s xs))

  length-take-all : (n : ℕ) (xs : List A) → length (take n xs) ≤ length xs
  length-take-all zero xs = omega arith
  length-take-all (suc n) [] = omega arith
  length-take-all (suc n) (x ∷ xs) = omega (arith, length-take-all n xs)

  -- A page has no more names than are left, and some where there are.
  length-page :
      (n s : ℕ) (xs : List A)
      → 0 < n
      → s ≤ length xs
      → (s + length (take n (drop s xs)) ≤ length xs)
        × (s < length xs → 0 < length (take n (drop s xs)))
  length-page zero s xs p h = absurd (omega arith)
  length-page (suc n) zero [] p h = (omega arith, λ q. absurd (omega arith))
  length-page (suc n) zero (x ∷ xs) p h = (omega (arith, length-take-all n xs), λ q. omega arith)
  length-page (suc n) (suc s) [] p h = absurd (omega arith)
  length-page (suc n) (suc s) (x ∷ xs) p h =
      let (a, b) = length-page (suc n) s xs p (omega arith) in (omega arith, λ q. b (omega arith))

last_page : (total skip : ℕ) → (leb total skip ≡ true) ⊎ (leb total skip ≡ false)
last_page total skip = ground arith

-- What the server returns for a page: of `keys`, those from `skip` on, up to the limit.
abbrev pub page_of : List Text → ℕ → Page
page_of keys skip = record {
  skip = skip;
  total = length keys;
  resources = take limit (drop skip keys);
}

-- A server that holds `keys`, in a fixed order, and answers each request for a page.
pub record Serves (lib : Library) (serve : ℕ → ℕ → Exchange) (keys : List Text) : Type 0 where
  pub response : ℕ → Response
  pub answers :
      (skip : ℕ) → serve limit skip ≡ record { new_request = none; reply = ok (response skip) }
  pub succeeds : (skip : ℕ) → (response skip).status_code ≡ 200
  pub decodes :
      (before : Page) (skip : ℕ)
      → skip ≤ length keys
      → lib.decode_page before ((response skip).content (32 * mib)) ≡ ok (page_of keys skip)

module _ (lib : Library) (serve : ℕ → ℕ → Exchange) (keys : List Text)
    (sv : Serves lib serve keys) where
  read_page_lem :
      (skip : ℕ) (before : Page)
      → skip ≤ length keys
      → read_page lib (serve limit skip) skip before ≡ ok (page_of keys skip)
  unfolding read_page
  read_page_lem skip before h =
      let eq : (skip == skip) ≡ true = ground arith in
      rw (sv.answers skip, sv.succeeds skip, sv.decodes before skip h, eq) refl

  list_pages_lem :
      (fuel skip : ℕ) (before : Page)
      → length keys < 2 ^ 64
      → skip ≤ length keys
      → length keys < fuel + skip
      → list_pages lib serve fuel
          (record { skipped = skip; response = before; names = take skip keys })
        ≡ some (ok keys)
  unfolding list_pages
  list_pages_lem zero skip before small h f = absurd (omega arith)
  list_pages_lem (suc fuel) skip before small h f =
      let page = page_of keys skip in
      let moved = length-page limit skip keys (omega arith) h in
      let next = skip + length page.resources in
      let joined : take skip keys ++ page.resources ≡ take next keys = take_page limit skip keys in
      let fits : next % 2 ^ 64 ≡ next = omega (arith, moved.0) in
      rw (read_page_lem skip before h, joined, fits, list_pages)
        (elim (last_page (length keys) skip) [
          | inl d ↦ rw d (ap (λ ks. some (ok ks)) (take-length next keys (ground arith)))
          | inr d ↦ rw d (list_pages_lem fuel next page small moved.0 (ground arith))
        ])

  -- Against a server that holds `keys`, fewer than 2^64, List reads all of them and returns the
  -- listing of the helper of internal/keystore: one request more than there are keys is enough.
  pub list_served :
      (fuel : ℕ) (prefix : Text) (n : ℤ)
      → length keys < 2 ^ 64
      → length keys < fuel
      → list lib serve fuel prefix n ≡ some (ok (Listing.list keys prefix n))
  unfolding list
  list_served fuel prefix n small h =
      rw (list_pages_lem fuel 0 (list_start.response) small (omega arith) (omega arith)) refl
