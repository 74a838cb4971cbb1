-- ===== src/KeyStore/Fortanix/Endless.antt =====
-- The loop of List of the Fortanix key store asks for the same page again and again.
use kes.Prelude.{
  ℕ, zero, suc, ◌≡◌, refl, none, List, [], ◌∷◌, ◌++◌, ◌*◌, ap, ℤ, Text, codes, text_eq,
}
use kes.Api.Errors.{Result, ok}
use kes.KeyStore.Fortanix.{Config, Client, Library, mb}
use kes.KeyStore.KeySecure.{Response}
use kes.KeyStore.Fortanix.Calls.{list_url, read_page, list_loop, list}

module _ (lib : Library) {S : Type 0} (c : Client S) (config : Config) (s : S) where
  list_loop-none :
      (start k : Text) (ks : List Text)
      → read_page lib c config start s ≡ (s, ok (k ∷ ks))
      → (fuel : ℕ) (names : List Text) → list_loop lib c config fuel start names s ≡ none
  unfolding list_loop
  list_loop-none start k ks page zero names = refl
  list_loop-none start k ks page (suc fuel) names =
      let again = list_loop-none start k ks page fuel (names ++ (k ∷ ks)) in
      let found : (read_page lib c config start s).1 ≡ ok (k ∷ ks) =
        ap (λ (r : S × Result (List Text)). r.1) page in
      let state : (read_page lib c config start s).0 ≡ s =
        ap (λ (r : S × Result (List Text)). r.0) page in
      rw (list_loop, found, state) again

  -- A page that the server answers with, whatever the status code.
  read_page_lem :
      (start : Text) (resp : Response) (names : List Text)
      → c.new_request (codes "GET") (list_url lib c config start) ≡ none
      → c.send (codes "GET") (list_url lib c config start) [] s ≡ (s, ok resp)
      → lib.decode_names (resp.content (10 * mb)) ≡ ok names
      → read_page lib c config start s ≡ (s, ok names)
  unfolding read_page
  read_page_lem start resp names made sent decoded = rw (made, sent, decoded) refl

  -- List never returns while the server answers its request with a page that has a key: it asks for
  -- the page at the prefix each time.
  pub list_endless :
      (prefix k : Text) (ks : List Text) (n : ℤ) (resp : Response)
      → c.new_request (codes "GET") (list_url lib c config prefix) ≡ none
      → c.send (codes "GET") (list_url lib c config prefix) [] s ≡ (s, ok resp)
      → lib.decode_names (resp.content (10 * mb)) ≡ ok (k ∷ ks)
      → (fuel : ℕ) → list lib c config fuel prefix n s ≡ none
  unfolding list
  list_endless prefix k ks n resp made sent decoded fuel =
      let page = read_page_lem prefix resp (k ∷ ks) made sent decoded in
      rw (list_loop-none prefix k ks page fuel []) refl
