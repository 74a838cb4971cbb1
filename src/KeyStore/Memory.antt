-- ===== src/KeyStore/Memory.antt =====
-- MemKeyStore of keystore.go. Its state is the Cow of its keys; slices.Clone gives an equal value.
pub mod Views
pub mod Paging
pub mod Replies
use kes.Prelude.{
  ℕ, suc, Bool, not, ◌&&◌, ◌||◌, Option, none, some, List, [], ◌∷◌, arith, leb, ◌==◌, if◌then◌else◌,
  ℤ, is_positive, is_negative, to_ℕ, length, take, drop, Text, text_beq, text_eq, has_prefix,
}
use kes.Prelude.Sorting.{sort}
use kes.Cache.Cow
use kes.Cache.Cow.{Cow}
use kes.Api.Errors.{Error, Result, ok, err, sdk, key_exists, key_not_found}
use kes.KeyStore.Interface.{KeyStore, KeyStoreState}
use kes.KeyStore.Pages.{index_func, text_at}

abbrev pub MemKeyStore : Type 0
MemKeyStore = Cow Text Text

unfoldable pub status : MemKeyStore → MemKeyStore × Result KeyStoreState
status ks = (ks, ok (record { latency = 1000000 }))

unfoldable pub create : Text → Text → MemKeyStore → MemKeyStore × Option Error
create name value ks =
    let (keys, added) = Cow.add name value ks in
    if not added then (keys, some (sdk key_exists)) else (keys, none)

unfoldable pub delete : Text → MemKeyStore → MemKeyStore × Option Error
delete name ks =
    let (keys, deleted) = Cow.delete name ks in
    if not deleted then (keys, some (sdk key_not_found)) else (keys, none)

unfoldable pub get : Text → MemKeyStore → MemKeyStore × Result Text
get name ks = elim (Cow.get name ks) [
  | none ↦ (ks, err (sdk key_not_found))
  | some val ↦ (ks, ok val)
]

-- for j, key := range keys[i:], where `all` is keys[i:]
unfoldable pub page_loop : Text → ℤ → List Text → ℕ → List Text → List Text × Text
page_loop prefix n all j [] = (all, [])
page_loop prefix n all j (key ∷ rest) =
    let more = page_loop prefix n all (suc j) rest in
    if not (has_prefix prefix key)
    then (take j all, [])
    else if is_positive n && j == to_ℕ n
    then (take j all, key)
    else more

unfoldable pub page_after : Text → ℤ → List Text → Option ℕ → List Text × Text
unfolding page_loop
page_after prefix n keys none = ([], [])
page_after prefix n keys (some i) = page_loop prefix n (drop i keys) 0 (drop i keys)

-- The body of List on the sorted keys, for n != 0.
unfoldable pub page : Text → ℤ → List Text → List Text × Text
unfolding page_after
page prefix n keys =
    if text_beq prefix []
    then (if is_negative n || leb (length keys) (to_ℕ n)
        then (keys, [])
        else (take (to_ℕ n) keys, text_at keys (to_ℕ n)))
    else page_after prefix n keys (index_func (has_prefix prefix) keys)

abbrev pub is_zero : ℤ → Bool
is_zero n = not (is_positive n) && not (is_negative n)

unfoldable pub list : Text → ℤ → MemKeyStore → MemKeyStore × Result (List Text × Text)
list prefix n ks =
    if is_zero n then (ks, ok ([], prefix)) else (ks, ok (page prefix n (sort (Cow.keys ks))))

unfoldable pub close : MemKeyStore → MemKeyStore × Option Error
close ks = (ks, none)

-- var _ KeyStore = (*MemKeyStore)(nil)
abbrev pub mem_key_store : KeyStore MemKeyStore
mem_key_store = record {
  status = status;
  create = create;
  delete = delete;
  get = get;
  list = list;
  close = close;
}
