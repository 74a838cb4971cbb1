-- ===== src/KeyStore/Cache/Collector.antt =====
-- The collectors of the key cache (newCache in keystore.go).
use kes.Prelude.{
  not, leb, to_ℕ, nat_eq, ◌≡◌, refl, ap, ◌∙◌, Bool, true, false, ◌&&◌, Option, none, some, arith,
  if◌then◌else◌, is_positive, Text, text_eq,
}
use kes.Cache.Cow
use kes.Cache.Cow.{Cow, zero_cow}
use kes.Cache.Cow.Bounds.{IsValid, delete_func-IsValid}
use kes.Cache.Cow.Views.{KeysDistinct, kept, get-delete_func}
use kes.Api.Errors.{Result, ok, err, errors_is, is_canceled}
use kes.KeyStore.Interface.{KeyStore, KeyStoreState}
use kes.KeyStore.Cache.{
  CacheEntry, KeyCache, CacheConfig, expire, unmark, evict_unused, Tick, expiry_tick, unused_tick,
  offline_tick, status_tick, runs, on_tick, tick,
}

-- What a tick leaves of an entry: nothing if it is not marked as used, else the entry, unmarked.
abbrev pub after_unused : Option CacheEntry → Option CacheEntry
after_unused none = none
after_unused (some e) = if e.used then some (record e { used = false }) else none

kept-unmark : (j : Text) (o : Option CacheEntry) → kept unmark j o ≡ after_unused o
kept-unmark j none = refl
kept-unmark j (some e) = ground arith

module _ {S : Type 0} (ks : KeyStore S) (conf : CacheConfig) where
  -- While the key store is offline and offline caching is on, neither the expiry nor the collector of
  -- unused keys changes anything.
  pub offline_keeps :
      (c : KeyCache S)
      → c.offline ≡ true
      → is_positive conf.expiry_offline ≡ true
      → (tick ks conf expiry_tick c ≡ c) × (tick ks conf unused_tick c ≡ c)
  unfolding tick on_tick expire evict_unused
  offline_keeps c o p = rw (o, p) (idle (runs conf expiry_tick) _, idle (runs conf unused_tick) _)
    where
      idle : (b : Bool) (x : KeyCache S) → (if b then x else x) ≡ x
      idle true x = refl
      idle false x = refl

  unused_tick-runs :
      (c : KeyCache S)
      → runs conf unused_tick ≡ true
      → c.offline ≡ false
      → tick ks conf unused_tick c ≡ record c { cache = Cow.delete_func unmark c.cache }
  unfolding tick on_tick evict_unused
  unused_tick-runs c r o = rw (r, o)

  -- While the key store is online, a tick of the collector of unused keys removes exactly the entries
  -- that are not marked as used, and unmarks the others.
  pub unused_tick_lem :
      (c : KeyCache S) (j : Text)
      → KeysDistinct c.cache
      → runs conf unused_tick ≡ true
      → c.offline ≡ false
      → Cow.get j (tick ks conf unused_tick c).cache ≡ after_unused (Cow.get j c.cache)
  unused_tick_lem c j d r o =
      rw (unused_tick-runs c r o)
        (get-delete_func unmark j c.cache d ∙ kept-unmark j (Cow.get j c.cache))

  after_unused-twice : (o : Option CacheEntry) → after_unused (after_unused o) ≡ none
  after_unused-twice none = refl
  after_unused-twice (some e) = ground arith

  -- From a valid cache, with the key store online and the collector of unused keys running, two of
  -- its ticks with no call in between leave no entry, whatever the cache held.
  pub unused_twice :
      (c : KeyCache S) (j : Text)
      → IsValid c.cache
      → runs conf unused_tick ≡ true
      → c.offline ≡ false
      → Cow.get j (tick ks conf unused_tick (tick ks conf unused_tick c)).cache ≡ none
  unused_twice c j v r o = rw (unused_tick-runs c r o) (
      unused_tick_lem (record c { cache = Cow.delete_func unmark c.cache }) j
        (delete_func-IsValid unmark c.cache v).distinct r o
      ∙ (ap after_unused
            (get-delete_func unmark j c.cache v.distinct ∙ kept-unmark j (Cow.get j c.cache))
          ∙ after_unused-twice (Cow.get j c.cache)))

-- The entry that a tick leaves of one, where the key store has been found online or offline. With
-- offline caching, the expiry and the collector of unused keys do nothing while it is offline, and
-- the offline expiry does nothing else while it is online.
abbrev pub left_of : CacheConfig → Tick → Bool → Option CacheEntry → Option CacheEntry
left_of conf expiry_tick true o =
    if is_positive conf.expiry && not (is_positive conf.expiry_offline) then none else o
left_of conf expiry_tick false o = if is_positive conf.expiry then none else o
left_of conf unused_tick true o =
    if leb 2 (to_ℕ conf.expiry_unused) && not (is_positive conf.expiry_offline)
    then after_unused o
    else o
left_of conf unused_tick false o = if leb 2 (to_ℕ conf.expiry_unused) then after_unused o else o
left_of conf offline_tick true o = if is_positive conf.expiry_offline then none else o
left_of conf offline_tick false o = o
left_of conf status_tick offline o = o

-- Whether the store is taken to be offline after a status probe that is not canceled.
abbrev pub found_offline : Tick → Bool → Result KeyStoreState → Bool
found_offline status_tick offline (ok state) = false
found_offline status_tick offline (err e) = not (errors_is is_canceled e)
found_offline t offline r = offline
