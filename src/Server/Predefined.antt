-- ===== src/Server/Predefined.antt =====
-- createPredefinedKeys of server.go.
pub mod Held
use kes.Prelude.{ℕ, ◌+◌, Bool, true, false, List, [], ◌∷◌, if◌then◌else◌, Text}
use kes.Api.Errors.{Error, Result, ok, err, panic, sdk, key_exists}
use kes.Crypto.Keys.{
  SecretKey, HmacKey, sha256, determine_secret_key_type, generate_secret_key, generate_hmac_key,
}
use kes.KeyStore.Interface.{KeyStore}
use kes.KeyStore.Cache
use kes.KeyStore.Cache.{KeyCache}
use kes.Server.Keys.{Libraries, World}

-- err != kes.ErrKeyExists is false of this one value, not of errors that wrap it.
abbrev pub tolerated : Error → Bool
tolerated (sdk key_exists) = true
tolerated e = false

module _ {S : Type 0} (ks : KeyStore S) (l : Libraries) (admin : Text) where
  -- if err = state.Keys.Create(...); err != nil { if err != kes.ErrKeyExists { return err } }
  abbrev pub tolerate : Result (Unit {0}) → Result (Unit {0})
  tolerate (ok u) = ok u
  tolerate (panic why) = panic why
  tolerate (err e) = if tolerated e then ok tt else err e

  abbrev pub create_predefined :
      World → Text → KeyCache S → Result SecretKey → Result HmacKey → KeyCache S × Result (Unit {0})
  create_predefined w name keys (panic why) hmac = (keys, panic why)
  create_predefined w name keys (err e) hmac = (keys, err e)
  create_predefined w name keys (ok key) (panic why) = (keys, panic why)
  create_predefined w name keys (ok key) (err e) = (keys, err e)
  create_predefined w name keys (ok key) (ok hmac) =
      let (keys', r) =
        Cache.create ks l.codec name
          (record { key = key; hmac_key = hmac; created_at = w.now; created_by = admin }) keys in
      (keys', tolerate r)

  -- One turn of the loop.
  unfoldable pub create_one : World → Text → KeyCache S → KeyCache S × Result (Unit {0})
  create_one w name keys =
      create_predefined w name keys
        (generate_secret_key (determine_secret_key_type l.primitives.fips l.has_aes_gcm)
          w.first_random)
        (generate_hmac_key sha256 w.second_random)

  abbrev pub go_on :
      KeyCache S × Result (Unit {0})
      → (KeyCache S → KeyCache S × Result (Unit {0}))
      → KeyCache S × Result (Unit {0})
  go_on (keys, ok u) rest = rest keys
  go_on (keys, err e) rest = (keys, err e)
  go_on (keys, panic why) rest = (keys, panic why)

  -- The loop; the i-th key reads the i-th random bytes and time.
  unfoldable pub create_predefined_keys :
      (ℕ → World) → ℕ → List Text → KeyCache S → KeyCache S × Result (Unit {0})
  create_predefined_keys world i [] keys = (keys, ok tt)
  create_predefined_keys world i (name ∷ names) keys =
      go_on (create_one (world i) name keys) (create_predefined_keys world (i + 1) names)
