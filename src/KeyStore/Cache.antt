-- ===== src/KeyStore/Cache.antt =====
-- The keyCache of keystore.go over any KeyStore. The goroutines of newCache are the ticks below.
-- An entry's flag is shared by pointer: marking it changes the entry where the map holds it.
pub mod Contract
pub mod Coherence
pub mod Calls
pub mod Repeats
pub mod Creation
pub mod Collector
pub mod Race
use kes.Prelude.{
  ◌/◌, Bool, true, false, not, ◌&&◌, ◌||◌, Option, none, some, List, map, arith, ltb, if◌then◌else◌,
  ℤ, is_positive, to_ℕ, Text, text_eq,
}
use kes.Prelude.Maps.{put}
use kes.Cache.Cow
use kes.Cache.Cow.{Cow, zero_cow}
use kes.Api.Errors.{
  Error, Result, ok, err, panic, ◌>>=◌, unreachable, plain, message, errors_is, is_sdk, is_canceled,
  sdk, key_exists, key_not_found,
}
use kes.Crypto.Keys.{KeyVersion}
use kes.Crypto.Encoding.{Codec, encode_key_version, parse_key_version}
use kes.KeyStore.Interface.{KeyStore, KeyStoreState}

pub record CacheEntry : Type 0 where
  pub key : KeyVersion
  pub used : Bool

-- The durations of CacheConfig, in nanoseconds.
pub record CacheConfig : Type 0 where
  pub expiry : ℤ
  pub expiry_unused : ℤ
  pub expiry_offline : ℤ

pub record KeyCache (S : Type 0) : Type 0 where
  pub store : S
  pub cache : Cow Text CacheEntry
  pub offline : Bool

unfoldable pub new_cache : {S : Type 0} → S → KeyCache S
new_cache store = record { store = store; cache = zero_cow; offline = false }

module _ {S : Type 0} where
  -- entry.Used.Store(true)
  unfoldable pub mark_used : Text → CacheEntry → KeyCache S → KeyCache S
  mark_used name entry c = elim c.cache.ptr [
    | none ↦ c
    | some m ↦ record c {
      cache = record {
        ptr = some (put name (record entry { used = true }) m);
        capacity = c.cache.capacity;
      };
    }
  ]

  -- if entry, ok := c.cache.Get(name); ok { entry.Used.Store(true); return entry.Key, nil }
  unfoldable pub get_cached : Text → KeyCache S → KeyCache S × Option KeyVersion
  get_cached name c = elim (Cow.get name c.cache) [
    | none ↦ (c, none)
    | some entry ↦ (mark_used name entry c, some entry.key)
  ]

  -- The last lines of Get: a new entry, marked as used.
  unfoldable pub install : Text → KeyVersion → KeyCache S → KeyCache S
  install name k c = record c { cache = (Cow.set name (record { key = k; used = true }) c.cache).0 }

module _ {S : Type 0} (ks : KeyStore S) where
  unfoldable pub status : KeyCache S → KeyCache S × Result KeyStoreState
  status c =
      if c.offline
      then (c, err (unreachable (plain (message "keystore is offline"))))
      else let (s, r) = ks.status c.store in (record c { store = s }, r)

  unfoldable pub list : Text → ℤ → KeyCache S → KeyCache S × Result (List Text × Text)
  list prefix n c = let (s, r) = ks.list prefix n c.store in (record c { store = s }, r)

  unfoldable pub delete : Text → KeyCache S → KeyCache S × Option Error
  delete name c =
      let (s, failed) = ks.delete name c.store in
      elim failed [
        | some e ↦ (record c { store = s }, some e)
        | none ↦ (record c { store = s; cache = (Cow.delete name c.cache).0 }, none)
      ]

  unfoldable pub close : KeyCache S → KeyCache S × Option Error
  close c = let (s, failed) = ks.close c.store in (record c { store = s }, failed)

module _ {S : Type 0} (ks : KeyStore S) (codec : Codec) where
  -- The result of the store, with any ErrKeyExists in its chain made plain ErrKeyExists.
  abbrev pub plain_exists : Option Error → Option Error
  plain_exists none = none
  plain_exists (some e) = if errors_is (is_sdk key_exists) e then some (sdk key_exists) else some e

  unfoldable pub create_encoded : Text → Result Text → KeyCache S → KeyCache S × Result (Unit {0})
  create_encoded name (err e) c = (c, err e)
  create_encoded name (panic m) c = (c, panic m)
  create_encoded name (ok b) c =
      let (s, failed) = ks.create name b c.store in
      elim (plain_exists failed) [
        | none ↦ (record c { store = s }, ok tt)
        | some e ↦ (record c { store = s }, err e)
      ]

  unfoldable pub create : Text → KeyVersion → KeyCache S → KeyCache S × Result (Unit {0})
  unfolding create_encoded
  create name key c = create_encoded name (encode_key_version codec key) c

  -- c.store.Get(ctx, name), and crypto.ParseKeyVersion of the bytes.
  abbrev pub plain_not_found : Result Text → Result Text
  plain_not_found (ok b) = ok b
  plain_not_found (err e) =
      if errors_is (is_sdk key_not_found) e then err (sdk key_not_found) else err e
  plain_not_found (panic m) = panic m

  unfoldable pub fetch : Text → KeyCache S → KeyCache S × Result KeyVersion
  fetch name c =
      let (s, r) = ks.get name c.store in
      (record c { store = s }, (plain_not_found r >>= parse_key_version codec))

  abbrev pub install_ok : Text → KeyCache S × Result KeyVersion → KeyCache S × Result KeyVersion
  install_ok name (c, ok k) = (install name k c, ok k)
  install_ok name (c, err e) = (c, err e)
  install_ok name (c, panic m) = (c, panic m)

  -- What Get does while it holds the barrier of the name.
  unfoldable pub get_locked : Text → KeyCache S → KeyCache S × Result KeyVersion
  get_locked name c =
      let (c', hit) = get_cached name c in
      elim hit [ some k ↦ (c', ok k) | none ↦ install_ok name (fetch name c') ]

  unfoldable pub get : Text → KeyCache S → KeyCache S × Result KeyVersion
  get name c =
      let (c', hit) = get_cached name c in
      elim hit [ some k ↦ (c', ok k) | none ↦ get_locked name c' ]

-- !e.Used.CompareAndSwap(true, false), and the entry that it leaves
abbrev pub unmark : Text → CacheEntry → CacheEntry × Bool
unmark name e = (record e { used = false }, not e.used)

-- The functions that newCache hands to its four collectors.
module _ {S : Type 0} (conf : CacheConfig) where
  -- if offline := c.offline.Load(); !offline || expiryOffline <= 0
  abbrev pub applies_online : KeyCache S → Bool
  applies_online c = not c.offline || not (is_positive conf.expiry_offline)

  unfoldable pub expire : KeyCache S → KeyCache S
  expire c = if applies_online c then record c { cache = Cow.delete_all c.cache } else c

  unfoldable pub evict_unused : KeyCache S → KeyCache S
  evict_unused c =
      if applies_online c then record c { cache = Cow.delete_func unmark c.cache } else c

  unfoldable pub expire_offline : KeyCache S → KeyCache S
  expire_offline c =
      if c.offline && is_positive conf.expiry_offline
      then record c { cache = Cow.delete_all c.cache }
      else c

unfoldable pub probe : {S : Type 0} → KeyStore S → KeyCache S → KeyCache S
probe ks c =
    let (s, r) = ks.status c.store in
    record c {
      store = s;
      offline = elim r [
        | ok state ↦ false
        | err e ↦ not (errors_is is_canceled e)
        | panic m ↦ c.offline
      ];
    }

pub data Tick : Type 0 where
  expiry_tick unused_tick offline_tick status_tick : Tick

-- gc returns at once where its interval is not positive; the division truncates.
unfoldable pub runs : CacheConfig → Tick → Bool
runs conf expiry_tick = is_positive conf.expiry
runs conf unused_tick = ltb 0 (to_ℕ conf.expiry_unused / 2)
runs conf offline_tick = is_positive conf.expiry_offline
runs conf status_tick = true

unfoldable pub on_tick : {S : Type 0} → KeyStore S → CacheConfig → Tick → KeyCache S → KeyCache S
on_tick ks conf expiry_tick c = expire conf c
on_tick ks conf unused_tick c = evict_unused conf c
on_tick ks conf offline_tick c = expire_offline conf c
on_tick ks conf status_tick c = probe ks c

-- One tick of one of the collectors.
unfoldable pub tick : {S : Type 0} → KeyStore S → CacheConfig → Tick → KeyCache S → KeyCache S
tick ks conf t c = if runs conf t then on_tick ks conf t c else c
