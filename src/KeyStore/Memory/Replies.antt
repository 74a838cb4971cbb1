-- ===== src/KeyStore/Memory/Replies.antt =====
-- MemKeyStore against a map from names to values: what it answers to any sequence of calls.
use kes.Prelude.{
  ◌≡◌, refl, ap, ◌∙◌, false, Option, none, some, List, [], ◌∷◌, arith, if◌then◌else◌, Option-cases,
  inl, inr, Text, text_beq, text_beq_iff, text_eq, pos,
}
use kes.Api.Errors.{Error, Result, ok, err, sdk, key_exists, key_not_found}
use kes.Cache.Cow
use kes.Cache.Cow.Views.{at_capacity, get-add, get-delete, capacity-add, capacity-delete}
use kes.KeyStore.Interface.{KeyStore}
use kes.KeyStore.Memory
use kes.KeyStore.Memory.{MemKeyStore, mem_key_store}

-- The calls that read or change a key, and what they return.
pub data Call : Type 0 where
  get : Text → Call
  create : Text → Text → Call
  delete : Text → Call

pub data Reply : Type 0 where
  value : Result Text → Reply
  done : Option Error → Reply

abbrev pub Map : Type 0
Map = Text → Option Text

abbrev pub put : Text → Option Text → Map → Map
put name o m j = if text_beq name j then o else m j

-- What a key store promises: Create makes a key that is not there yet, Get returns its value, and
-- Delete removes one that is there.
unfoldable pub promised : Call → Map → Map × Reply
promised (get name) m = elim (m name) [
  | none ↦ (m, value (err (sdk key_not_found)))
  | some b ↦ (m, value (ok b))
]
promised (create name b) m = elim (m name) [
  | none ↦ (put name (some b) m, done none)
  | some old ↦ (m, done (some (sdk key_exists)))
]
promised (delete name) m = elim (m name) [
  | none ↦ (m, done (some (sdk key_not_found)))
  | some b ↦ (put name none m, done none)
]

abbrev pub promises : List Call → Map → List Reply
promises [] m = []
promises (c ∷ cs) m = let (m', reply) = promised c m in reply ∷ promises cs m'

unfoldable pub answered : {S : Type 0} → KeyStore S → Call → S → S × Reply
answered ks (get name) s = let (s', r) = ks.get name s in (s', value r)
answered ks (create name b) s = let (s', r) = ks.create name b s in (s', done r)
answered ks (delete name) s = let (s', r) = ks.delete name s in (s', done r)

abbrev pub replies : {S : Type 0} → KeyStore S → List Call → S → List Reply
replies ks [] s = []
replies ks (c ∷ cs) s = let (s', reply) = answered ks c s in reply ∷ replies ks cs s'

-- The store shows what the map shows, and has no limit.
abbrev Shows : MemKeyStore → Map → Type 0
Shows ks m = ((j : Text) → Cow.get j ks ≡ m j) × (ks.capacity ≡ pos 0)

room : (ks : MemKeyStore) → ks.capacity ≡ pos 0 → at_capacity ks ≡ false
room ks u = ground arith

module _ (name : Text) (ks : MemKeyStore) (m : Map) (h : Shows ks m) where
  create_lem :
      (b : Text)
      → let p = promised (create name b) m in
        Shows (Memory.create name b ks).0 p.0 × (done (Memory.create name b ks).1 ≡ p.1)
  unfolding promised Memory.create
  create_lem b = (
    (
      λ j. ground (arith, get-add name j b ks, h.0 j, h.0 name, room ks h.1),
      ground (arith, capacity-add name b ks, h.1),
    ),
    ground (arith, get-add name name b ks, h.0 name, room ks h.1),
  )

  delete_lem :
      let p = promised (delete name) m in
      Shows (Memory.delete name ks).0 p.0 × (done (Memory.delete name ks).1 ≡ p.1)
  unfolding promised Memory.delete
  delete_lem = (
    (
      λ j. ground (arith, get-delete name j ks, text_beq_iff name j, h.0 j, h.0 name),
      ground (arith, capacity-delete name ks, h.1),
    ),
    ground (arith, get-delete name name ks, h.0 name),
  )

  get_lem :
      let p = promised (get name) m in
      Shows (Memory.get name ks).0 p.0 × (value (Memory.get name ks).1 ≡ p.1)
  unfolding promised Memory.get
  get_lem = elim (Option-cases (m name)) [
    | inl q ↦ rw (Memory.get, promised, h.0 name, q) (h, refl)
    | inr (b, q) ↦ rw (Memory.get, promised, h.0 name, q) (h, refl)
  ]

answered_lem :
    (c : Call) (ks : MemKeyStore) (m : Map)
    → Shows ks m
    → Shows (answered mem_key_store c ks).0 (promised c m).0
      × ((answered mem_key_store c ks).1 ≡ (promised c m).1)
unfolding answered
answered_lem (get name) ks m h = get_lem name ks m h
answered_lem (create name b) ks m h = create_lem name ks m h b
answered_lem (delete name) ks m h = delete_lem name ks m h

replies-Shows :
    (cs : List Call) (ks : MemKeyStore) (m : Map)
    → Shows ks m
    → replies mem_key_store cs ks ≡ promises cs m
replies-Shows [] ks m h = refl
replies-Shows (c ∷ cs) ks m h =
    let (next, same) = answered_lem c ks m h in
    ap (◌∷◌ (answered mem_key_store c ks).1)
      (replies-Shows cs (answered mem_key_store c ks).0 (promised c m).0 next)
    ∙ ap (λ r. r ∷ promises cs (promised c m).0) same

-- A MemKeyStore without a limit, as its zero value is, gives to any sequence of calls of Create, Get
-- and Delete the replies that a map from names to values promises, errors included.
pub replies_lem :
    (cs : List Call) (ks : MemKeyStore)
    → ks.capacity ≡ pos 0
    → replies mem_key_store cs ks ≡ promises cs (λ j. Cow.get j ks)
replies_lem cs ks u = replies-Shows cs ks (λ j. Cow.get j ks) (λ j. refl, u)
