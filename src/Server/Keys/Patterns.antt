-- ===== src/Server/Keys/Patterns.antt =====
-- A listing of keys by a pattern with a star. The handlers for policies and identities cut the star
-- off; listKeys hands it to the key store.
use kes.Prelude.{
  ℕ, ◌≡◌, refl, ap, ◌∙◌, inl, inr, Bool, true, false, ◌&&◌, List, [], ◌∷◌, ◌++◌, arith, ◌==◌,
  Bool-cases, negsuc, select, every, Text, text_eq, has_prefix,
}
use kes.Prelude.Sorting.{insert, sort}
use kes.Cache.Cow
use kes.Api.Errors.{ok}
use kes.Auth.Names.{word_char, valid_name, valid_pattern}
use kes.Auth.Names.Rules.{valid_name_lem, name_char}
use kes.Auth.Requests.{Request}
use kes.KeyStore.Memory.{MemKeyStore, mem_key_store}
use kes.KeyStore.Memory
use kes.KeyStore.Memory.Paging.{list_lem}
use kes.KeyStore.Cache
use kes.Server.State.{ServerState, list_keys_body, reply_with}
use kes.Server.Keys.{Libraries, World, list_prefix, list_reply, list_keys}

-- No byte of a name is a star.
star-no_name : name_char b'*' ≡ false
unfolding word_char
star-no_name = refl

no_star : (d : ℕ) → name_char d ≡ true → (b'*' == d) ≡ false
no_star d h = elim (Bool-cases (b'*' == d)) [
  | inl t ↦ let e : b'*' ≡ d = ground arith in cc (star-no_name, ap name_char e, h)
  | inr t ↦ t
]

has_prefix-star :
    (q name : Text) → every name_char name ≡ true → has_prefix (q ++ b'*' ∷ []) name ≡ false
has_prefix-star [] [] h = refl
has_prefix-star [] (d ∷ name) h = ground (arith, no_star d)
has_prefix-star (c ∷ q) [] h = refl
has_prefix-star (c ∷ q) (d ∷ name) h = ground (arith, has_prefix-star q name)

select-star :
    (q : Text) (names : List Text)
    → every valid_name names ≡ true
    → select (has_prefix (q ++ b'*' ∷ [])) names ≡ []
select-star q [] h = refl
select-star q (name ∷ names) h =
    ground (arith, select-star q names, has_prefix-star q name, valid_name_lem name)

every-insert :
    (f : Text → Bool) (x : Text) (ys : List Text) → every f (insert x ys) ≡ (f x && every f ys)
unfolding insert
every-insert f x [] = refl
every-insert f x (y ∷ ys) = ground (arith, every-insert f x ys)

every-sort : (f : Text → Bool) (xs : List Text) → every f (sort xs) ≡ every f xs
unfolding sort
every-sort f [] = refl
every-sort f (x ∷ xs) = ground (arith, every-insert f x (sort xs), every-sort f xs)

module _ (l : Libraries) (w : World) where
  list_prefix-star :
      (c : ℕ) (p : Text) → list_prefix mem_key_store l w (c ∷ p ++ b'*' ∷ []) ≡ c ∷ p ++ b'*' ∷ []
  unfolding list_prefix
  list_prefix-star c [] = ground arith
  list_prefix-star c (d ∷ p) = ground arith

  -- Over an in-memory store whose keys all have valid names, listKeys answers a valid pattern that
  -- has other bytes before its star with no names, whatever the store holds.
  pub list_keys-star :
      (st : ServerState MemKeyStore) (req : Request) (c : ℕ) (p : Text)
      → valid_pattern req.resource ≡ true
      → req.resource ≡ c ∷ p ++ b'*' ∷ []
      → every valid_name (Cow.keys st.keys.store) ≡ true
      → (list_keys mem_key_store l w st req).1 ≡ reply_with 200 (list_keys_body [] []) ∷ []
  unfolding list_keys Cache.list list_reply
  list_keys-star st req c p v r names =
      let none_left : select (has_prefix (c ∷ p ++ b'*' ∷ [])) (sort (Cow.keys st.keys.store))
          ≡ [] =
        select-star (c ∷ p) (sort (Cow.keys st.keys.store))
          (every-sort valid_name (Cow.keys st.keys.store) ∙ names) in
      let page : Memory.list (c ∷ p ++ b'*' ∷ []) (negsuc 0) st.keys.store
          ≡ (st.keys.store, ok ([], [])) =
        list_lem (c ∷ p ++ b'*' ∷ []) (negsuc 0) st.keys.store ∙ rw none_left refl in
      rw v (rw r (rw (list_prefix-star c p) (rw page refl)))
