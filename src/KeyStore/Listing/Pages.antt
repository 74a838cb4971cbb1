-- ===== src/KeyStore/Listing/Pages.antt =====
-- The pages that List of internal/keystore returns.
use kes.Prelude.{
  ℕ, suc, ◌+◌, ◌-◌, ◌≤◌, ◌<◌, ◌≡◌, refl, sym, ap, ◌∙◌, inl, inr, true, false, Option, none, some,
  List, [], ◌∷◌, ◌++◌, arith, ltb, leb, ◌==◌, if◌then◌else◌, Bool-cases, ℤ, pos, negsuc,
  is_positive, to_ℕ, length, length-append, take-length, take, select, Text, text_eq, has_prefix,
}
use mathlib.Core.List.{append_assoc, append-nil}
use kes.Prelude.Sorting.{sort, sort-Ascending, Ascending}
use kes.KeyStore.Pages.{
  index_func, FirstMatch, index_func-FirstMatch, Block, Ascending-Block, drop-Ascending,
  take-append, text_at, text_at-append, text_at-length,
}
use kes.KeyStore.Listing.{max_names, page_ends, scan, cut, from_first, list_from, list_sorted, list}

-- A page of `names` that ends after `k` of them: it is their first k, and the next name is the one
-- to continue at, or "" if none is left.
pub record IsPage (names : List Text) (k : ℕ) (page : List Text × Text) : Type 0 where
  pub front : page.0 ≡ take k names
  pub next : page.1 ≡ text_at names k

-- The most names on a page: two more than asked for, or one more than the default.
pub limit : ℤ → ℕ
limit n = if is_positive n then to_ℕ n + 2 else max_names + 1

limit_lem : (n : ℤ) → limit n ≡ (if is_positive n then to_ℕ n + 2 else max_names + 1)
unfolding limit
limit_lem n = refl

-- A page that makes progress and is not over the limit.
abbrev pub Pages : ℤ → List Text → List Text × Text → Type 0
Pages n names page = (k : ℕ) × (0 < k) × (k ≤ limit n) × IsPage names k page

whole : (n : ℤ) (names : List Text) → length names ≤ limit n → Pages n names (names, [])
whole n names h = (
  limit n,
  ground (arith, limit_lem n),
  omega arith,
  record {
    front = sym (take-length (limit n) names h);
    next = sym (text_at-length (limit n) names h);
  },
)

part :
    (n : ℤ) (names : List Text) (k : ℕ)
    → 0 < k
    → k ≤ limit n
    → Pages n names (take k names, text_at names k)
part n names k h l = (k, h, l, record { front = refl; next = refl })

cut_lem : (n : ℤ) (names : List Text) → Pages n names (cut n names)
unfolding cut
cut_lem (pos m) names = elim (Bool-cases (ltb 0 m)) [
  | inl z ↦ elim (Bool-cases (leb (length names) m)) [
    | inl h ↦ rw (z, h) (whole (pos m) names (ground (arith, limit_lem (pos m))))
    | inr h ↦
        rw (z, h)
          (part (pos m) names m (ground (arith, limit_lem (pos m)))
            (ground (arith, limit_lem (pos m))))
  ]
  | inr z ↦ elim (Bool-cases (leb (length names) max_names)) [
    | inl h ↦ rw (z, h) (whole (pos m) names (ground (arith, limit_lem (pos m))))
    | inr h ↦ elim (Bool-cases (leb (length names) m)) [
      | inl q ↦ rw (z, h, q) (whole (pos m) names (ground (arith, limit_lem (pos m))))
      | inr q ↦
          rw (z, h, q)
            (part (pos m) names max_names (omega arith) (ground (arith, limit_lem (pos m))))
    ]
  ]
]
cut_lem (negsuc m) names = elim (Bool-cases (leb (length names) max_names)) [
  | inl h ↦ rw h (whole (negsuc m) names (ground (arith, limit_lem (negsuc m))))
  | inr h ↦
      rw h (part (negsuc m) names max_names (omega arith) (ground (arith, limit_lem (negsuc m))))
]

-- What has been passed over is below the limit.
abbrev Below : ℤ → ℕ → Type 0
Below n i = suc i ≤ limit n

-- The names passed over are \`done\`; the loop ends with a page, or every name matches.
abbrev Scanned : Text → ℤ → List Text → List Text → Option (List Text × Text) → Type 0
Scanned p n done rest none = select (has_prefix p) rest ≡ rest
Scanned p n done rest (some page) = Pages n (done ++ select (has_prefix p) rest) page

take_done : (all done rest : List Text) → all ≡ done ++ rest → take (length done) all ≡ done
take_done all done rest e = rw (e, take-append done rest)

length_snoc : (xs : List Text) (x : Text) → length (xs ++ x ∷ []) ≡ suc (length xs)
length_snoc xs x = omega (arith, length-append xs (x ∷ []))

page_ends_pos : (n : ℤ) (i : ℕ) → page_ends n i ≡ true → 0 < i
unfolding page_ends
page_ends_pos n i h = ground arith

page_ends-Below : (n : ℤ) (i : ℕ) → page_ends n i ≡ false → Below n i → Below n (suc i)
unfolding page_ends
page_ends-Below n i h b = ground (arith, limit_lem n)

-- The branch that ends a page before or after \`name\`.
ended :
    (p : Text) (n : ℤ) (all done rest : List Text) (name : Text)
    → all ≡ done ++ name ∷ rest
    → has_prefix p name ≡ true
    → page_ends n (length done) ≡ true
    → Below n (length done)
    → Pages n (done ++ name ∷ select (has_prefix p) rest) (
        if length done == length all - 1
        then (all, [])
        else (take (length done) all, text_at all (length done)))
ended p n all done [] name e hit t b =
    rw (e, length_snoc done name)
      (ground (arith, whole n (done ++ name ∷ []) (omega (arith, length_snoc done name))))
ended p n all done (x ∷ rest) name e hit t b =
    let inside : (length done == length all - 1) ≡ false =
      ground (arith, ap length e, length-append done (name ∷ x ∷ rest)) in
    rw inside (
      length done,
      page_ends_pos n (length done) t,
      omega arith,
      record {
        front = rw (take_done all done (name ∷ x ∷ rest) e, take-append done (name ∷ _));
        next = rw (e, text_at-append done (x ∷ rest) name, text_at-append done _ name);
      },
    )

scan_ended :
    (p : Text) (n : ℤ) (all done rest : List Text) (name : Text)
    → all ≡ done ++ name ∷ rest
    → has_prefix p name ≡ true
    → page_ends n (length done) ≡ true
    → Below n (length done)
    → Scanned p n done (name ∷ rest) (
        if length done == length all - 1
        then some (all, [])
        else some (take (length done) all, text_at all (length done)))
scan_ended p n all done rest name e hit t b = elim (Bool-cases (length done == length all - 1)) [
  | inl q ↦ rw (q, hit) (rw q at (ended p n all done rest name e hit t b))
  | inr q ↦ rw (q, hit) (rw q at (ended p n all done rest name e hit t b))
]

Scanned-step :
    (p : Text) (n : ℤ) (done rest : List Text) (name : Text) (o : Option (List Text × Text))
    → has_prefix p name ≡ true
    → Scanned p n (done ++ name ∷ []) rest o
    → Scanned p n done (name ∷ rest) o
Scanned-step p n done rest name none hit h = rw (hit, h)
Scanned-step p n done rest name (some page) hit h =
    rw hit (rw (append_assoc done (name ∷ []) _) at h)

scan_lem :
    (p : Text) (n : ℤ) (all done rest : List Text)
    → all ≡ done ++ rest
    → Block p rest
    → Below n (length done)
    → Scanned p n done rest (scan p n all (length done) rest)
unfolding scan
scan_lem p n all done [] e b h = refl
scan_lem p n all done (name ∷ rest) e b h = elim (Bool-cases (has_prefix p name)) [
  | inr miss ↦ rw miss (
      rw (miss, b.0 miss, append-nil done, take_done all done (name ∷ rest) e)
        (whole n done (omega arith)))
  | inl hit ↦ elim (Bool-cases (page_ends n (length done))) [
    | inl t ↦ rw (hit, t) (scan_ended p n all done rest name e hit t h)
    | inr t ↦
        rw (hit, t, ← length_snoc done name)
          (Scanned-step p n done rest name _ hit (
            scan_lem p n all (done ++ name ∷ []) rest (e ∙ sym (append_assoc done (name ∷ []) rest))
              b.1 (rw (length_snoc done name) (page_ends-Below n (length done) t h))))
  ]
]

first_lem :
    (p y : Text) (n : ℤ) (ys : List Text)
    → has_prefix p y ≡ true
    → Ascending (y ∷ ys)
    → Pages n (y ∷ select (has_prefix p) ys) (from_first p n (y ∷ ys))
unfolding from_first
first_lem p y n ys hit a = finish (scan p n (y ∷ ys) 0 (y ∷ ys)) (
    scan_lem p n (y ∷ ys) [] (y ∷ ys) refl ((λ miss. cc), Ascending-Block p y ys hit a)
      (ground (arith, limit_lem n)))
  where
    finish :
        (o : Option (List Text × Text))
        → Scanned p n [] (y ∷ ys) o
        → Pages n
            (y ∷ select (has_prefix p) ys)
            (elim o [ some result ↦ result | none ↦ cut n (y ∷ ys) ])
    finish none h = rw (rw hit at h) (cut_lem n (y ∷ ys))
    finish (some page) h = rw hit at h

from_lem :
    (p : Text) (n : ℤ) (names : List Text) (o : Option ℕ)
    → Ascending names
    → FirstMatch (has_prefix p) names o
    → Pages n (select (has_prefix p) names) (list_from p n names o)
unfolding list_from
from_lem p n names none a m = rw m (whole n [] (omega arith))
from_lem p n names (some i) a (y, ys, d, hit, s) =
    rw (d, s) (first_lem p y n ys hit (rw d at (drop-Ascending i names a)))

select_all : (names : List Text) → select (has_prefix []) names ≡ names
select_all [] = refl
select_all (x ∷ names) = ap (◌∷◌ x) (select_all names)

sorted_lem :
    (p : Text) (n : ℤ) (names : List Text)
    → Ascending names
    → Pages n (select (has_prefix p) names) (list_sorted p n names)
unfolding list_sorted
sorted_lem [] n names a = rw (select_all names) (cut_lem n names)
sorted_lem (c ∷ p) n names a =
    from_lem (c ∷ p) n names (index_func (has_prefix (c ∷ p)) names) a
      (index_func-FirstMatch (has_prefix (c ∷ p)) names)

-- For all names, prefixes and limits, List returns the first k of the sorted names with the prefix,
-- for some k > 0, and the name after these, or "" if there is none. k is at most n + 2 if 0 < n,
-- and at most 1025 otherwise.
pub list-Pages :
    (names : List Text) (p : Text) (n : ℤ)
    → Pages n (select (has_prefix p) (sort names)) (list names p n)
unfolding list
list-Pages names p n = sorted_lem p n (sort names) (sort-Ascending names)
