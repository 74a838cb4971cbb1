-- ===== src/KeyStore/Memory/Paging.antt =====
-- The pages that List of MemKeyStore (keystore.go) returns.
use kes.Prelude.{
  ℕ, zero, suc, ◌≤◌, ◌<◌, ◌≡◌, refl, sym, ap, ◌∙◌, inl, inr, true, false, ◌&&◌, Option, none, some,
  List, [], ◌∷◌, ◌++◌, arith, leb, ◌==◌, Bool-cases, ℤ, pos, negsuc, is_positive, to_ℕ, length,
  length-append, take-length, take, select, Text, text_eq, has_prefix,
}
use mathlib.Core.List.{append_assoc, append-nil}
use kes.Prelude.Sorting.{sort, sort-Ascending, Ascending}
use kes.Cache.Cow
use kes.Api.Errors.{ok}
use kes.KeyStore.Pages.{
  index_func, FirstMatch, index_func-FirstMatch, Block, Ascending-Block, drop-Ascending,
  take-append, text_at, text_at-append, text_at-length,
}
use kes.KeyStore.Memory.{MemKeyStore, page_loop, page_after, page, list, is_zero}

-- The first n of the matches and the match after them, if there is one; all of them for n < 0.
abbrev pub first_page : Text → ℤ → List Text → List Text × Text
first_page prefix (pos zero) names = ([], prefix)
first_page prefix (pos (suc n)) names = (take (suc n) names, text_at names (suc n))
first_page prefix (negsuc n) names = (names, [])

-- A limit of at least `j`, or none.
abbrev AtLeast : ℕ → ℤ → Type 0
AtLeast j (pos n) = (0 < n) × (j ≤ n)
AtLeast j (negsuc n) = Unit

page_stop :
    (p : Text) (n : ℤ) (done : List Text)
    → AtLeast (length done) n
    → (done, []) ≡ first_page p n done
page_stop p (pos zero) done h = absurd (omega arith)
page_stop p (pos (suc n)) done h =
    rw (take-length (suc n) done h.1, text_at-length (suc n) done h.1)
page_stop p (negsuc n) done h = refl

page_full :
    (p : Text) (n : ℕ) (done sel : List Text) (key : Text)
    → 0 < n
    → length done ≡ n
    → (done, key) ≡ first_page p (pos n) (done ++ key ∷ sel)
page_full p zero done sel key h e = absurd (omega arith)
page_full p (suc n) done sel key h e =
    rw (← e, take-append done (key ∷ sel), text_at-append done sel key)

take_done : (all done rest : List Text) → all ≡ done ++ rest → take (length done) all ≡ done
take_done all done rest e = rw (e, take-append done rest)

length_snoc : (xs : List Text) (x : Text) → length (xs ++ x ∷ []) ≡ suc (length xs)
length_snoc xs x = omega (arith, length-append xs (x ∷ []))

AtLeast-suc :
    (k : ℕ) (n : ℤ) → (is_positive n && k == to_ℕ n) ≡ false → AtLeast k n → AtLeast (suc k) n
AtLeast-suc k (pos n) t h = ground arith
AtLeast-suc k (negsuc n) t h = tt

page_loop_lem :
    (p : Text) (n : ℤ) (all done rest : List Text)
    → all ≡ done ++ rest
    → Block p rest
    → AtLeast (length done) n
    → page_loop p n all (length done) rest ≡ first_page p n (done ++ select (has_prefix p) rest)
unfolding page_loop
page_loop_lem p n all done [] e b h =
    rw (append-nil done, e, append-nil done) (page_stop p n done h)
page_loop_lem p n all done (key ∷ rest) e b h = elim (Bool-cases (has_prefix p key)) [
  | inr miss ↦
      rw (miss, b.0 miss, append-nil done, take_done all done (key ∷ rest) e) (page_stop p n done h)
  | inl hit ↦ elim (Bool-cases (is_positive n && length done == to_ℕ n)) [
    | inl stop ↦ rw (hit, stop, take_done all done (key ∷ rest) e) (stopped n stop)
    | inr go ↦
        rw (hit, go, ← length_snoc done key)
          (page_loop_lem p n all (done ++ key ∷ []) rest
              (e ∙ sym (append_assoc done (key ∷ []) rest)) b.1
              (rw (length_snoc done key) (AtLeast-suc (length done) n go h))
            ∙ ap (first_page p n) (append_assoc done (key ∷ []) _))
  ]
]
  where
    stopped :
        (n : ℤ)
        → (is_positive n && length done == to_ℕ n) ≡ true
        → (done, key) ≡ first_page p n (done ++ key ∷ select (has_prefix p) rest)
    stopped (pos n) t = page_full p n done _ key (ground arith) (ground arith)
    stopped (negsuc n) t = cc

AtLeast-zero : (n : ℤ) → is_zero n ≡ false → AtLeast 0 n
AtLeast-zero (pos n) h = ground arith
AtLeast-zero (negsuc n) h = tt

empty_page : (p : Text) (n : ℤ) → is_zero n ≡ false → ([], []) ≡ first_page p n []
empty_page p (pos zero) h = cc
empty_page p (pos (suc n)) h = refl
empty_page p (negsuc n) h = refl

page_after_lem :
    (p : Text) (n : ℤ) (keys : List Text) (o : Option ℕ)
    → is_zero n ≡ false
    → Ascending keys
    → FirstMatch (has_prefix p) keys o
    → page_after p n keys o ≡ first_page p n (select (has_prefix p) keys)
unfolding page_after
page_after_lem p n keys none z a m = rw m (empty_page p n z)
page_after_lem p n keys (some i) z a (y, ys, d, hit, s) =
    rw (d, s)
      (page_loop_lem p n (y ∷ ys) [] (y ∷ ys) refl
          ((λ miss. cc), Ascending-Block p y ys hit (rw d at (drop-Ascending i keys a)))
          (AtLeast-zero n z)
        ∙ ap (first_page p n) (rw hit))

select_all : (keys : List Text) → select (has_prefix []) keys ≡ keys
select_all [] = refl
select_all (k ∷ keys) = ap (◌∷◌ k) (select_all keys)

whole_page : (n : ℤ) (keys : List Text) → is_zero n ≡ false → page [] n keys ≡ first_page [] n keys
unfolding page
whole_page (pos zero) keys z = cc
whole_page (pos (suc n)) keys z = elim (Bool-cases (leb (length keys) (suc n))) [
  | inl h ↦ rw h (page_stop [] (pos (suc n)) keys (omega arith, ground arith))
  | inr h ↦ rw h
]
whole_page (negsuc n) keys z = refl

page_lem :
    (p : Text) (n : ℤ) (keys : List Text)
    → is_zero n ≡ false
    → Ascending keys
    → page p n keys ≡ first_page p n (select (has_prefix p) keys)
unfolding page
page_lem [] n keys z a = whole_page n keys z ∙ ap (first_page [] n) (sym (select_all keys))
page_lem (c ∷ p) n keys z a =
    page_after_lem (c ∷ p) n keys (index_func (has_prefix (c ∷ p)) keys) z a
      (index_func-FirstMatch (has_prefix (c ∷ p)) keys)

first_page_zero :
    (p : Text) (n : ℤ) (names : List Text) → is_zero n ≡ true → first_page p n names ≡ ([], p)
first_page_zero p (pos zero) names h = refl
first_page_zero p (pos (suc n)) names h = ground arith
first_page_zero p (negsuc n) names h = cc

-- For every prefix and limit, List leaves the store alone and returns, of the sorted keys with the
-- prefix, all and "" if n < 0; the first n and the one after them, or "" if there is none, if
-- 0 < n; and no keys and the prefix itself if n = 0.
pub list_lem :
    (p : Text) (n : ℤ) (ks : MemKeyStore)
    → list p n ks ≡ (ks, ok (first_page p n (select (has_prefix p) (sort (Cow.keys ks)))))
unfolding list
list_lem p n ks = elim (Bool-cases (is_zero n)) [
  | inl z ↦ rw (z, first_page_zero p n (select (has_prefix p) (sort (Cow.keys ks))) z)
  | inr z ↦ rw (z, page_lem p n (sort (Cow.keys ks)) z (sort-Ascending (Cow.keys ks)))
]
