-- ===== src/KeyStore/Cache/Contract.antt =====
-- The contract of the KeyStore interface, as the comments of keystore.go state it.
use kes.Prelude.{
  ◌≡◌, refl, Option, none, some, arith, if◌then◌else◌, ℤ, Text, text_beq, text_beq_iff, text_eq,
}
use kes.Api.Errors.{Error, ok}
use kes.KeyStore.Interface.{KeyStore}
use kes.Cache.Cow
use kes.Cache.Cow.Views.{get-add, get-delete}
use kes.KeyStore.Memory
use kes.KeyStore.Memory.{MemKeyStore, mem_key_store}

-- `view s name` is the value that the store holds under the name. A call that fails changes nothing;
-- it may fail for reasons of its own.
pub record IsKeyStore {S : Type 0} (ks : KeyStore S) (view : S → Text → Option Text) : Type 0 where
  pub get_ok : (s : S) (name b : Text) → (ks.get name s).1 ≡ ok b → view s name ≡ some b
  pub get_keeps : (s : S) (name j : Text) → view (ks.get name s).0 j ≡ view s j
  pub create_ok :
      (s : S) (name b j : Text)
      → (ks.create name b s).1 ≡ none
      → (view s name ≡ none)
        × (view (ks.create name b s).0 j ≡ (if text_beq name j then some b else view s j))
  pub create_fails :
      (s : S) (name b j : Text) (e : Error)
      → (ks.create name b s).1 ≡ some e
      → view (ks.create name b s).0 j ≡ view s j
  pub delete_ok :
      (s : S) (name j : Text)
      → (ks.delete name s).1 ≡ none
      → view (ks.delete name s).0 j ≡ (if text_beq name j then none else view s j)
  pub delete_fails :
      (s : S) (name j : Text) (e : Error)
      → (ks.delete name s).1 ≡ some e
      → view (ks.delete name s).0 j ≡ view s j
  pub status_keeps : (s : S) (j : Text) → view (ks.status s).0 j ≡ view s j
  pub list_keeps : (s : S) (p : Text) (n : ℤ) (j : Text) → view (ks.list p n s).0 j ≡ view s j

-- The in-memory store keeps the contract, with the lookup in its Cow for the view.
pub mem_key_store-IsKeyStore : IsKeyStore mem_key_store (λ ks name. Cow.get name ks)
unfolding Memory.get Memory.create Memory.delete Memory.status Memory.list
mem_key_store-IsKeyStore = record {
  get_ok = λ s name b h. ground arith;
  get_keeps = λ s name j. ground arith;
  create_ok = λ s name b j h. ground (arith, get-add name j b s);
  create_fails = λ s name b j e h. ground (arith, get-add name j b s);
  delete_ok = λ s name j h. ground (arith, get-delete name j s);
  delete_fails = λ s name j e h. ground (arith, text_beq_iff name j, get-delete name j s);
  status_keeps = λ s j. refl;
  list_keeps = λ s p n j. ground arith;
}
