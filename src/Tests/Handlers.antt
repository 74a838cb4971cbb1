-- ===== src/Tests/Handlers.antt =====
-- The handlers over an in-memory store.
use kes.Prelude.{◌≡◌, refl, true, false, some, [], ◌∷◌, ◌++◌, length, take, Text, codes, text_eq}
use kes.Prelude.Maps.{Assoc, lookup, put, Distinct}
use kes.Cache.Cow
use kes.Api.Errors.{ok, message}
use kes.Auth.Names.{word_char, valid_name}
use kes.Auth.Names.Rules.{valid_name_lem}
use kes.Crypto.Keys.{key_version_marshal, secret_key_marshal, hmac_key_marshal}
use kes.Crypto.Encoding.{parse_key_version}
use kes.Crypto.Encoding.RoundTrip.{parse-encode}
use kes.Crypto.Cipher.{encrypt, new_aead, check_key}
use kes.KeyStore.Memory.{MemKeyStore, mem_key_store}
use kes.KeyStore.Memory
use kes.KeyStore.Cache
use kes.KeyStore.Cache.Coherence.{Coherent}
use kes.Server.State.{ServerState, encrypt_key_body, decrypt_key_body, reply_with, fail}
use kes.Server.Keys.{Libraries, World, Decoder, create_key, import_key, describe_key, delete_key}
use kes.Server.Keys.Uses.{encrypt_key, generate_key, decrypt_key, hmac_key, ready}
use kes.Server.Keys.Refusals.{ready-offline}
use kes.Server.Keys.Replies.{one_reply}
use kes.Server.Keys.RoundTrip.{decrypt_key-encrypt_key}
use kes.Server.Setup.{PolicyConfig, assign, add_policies, init_policies}
use kes.Server.Setup.Policies.{init_policies_lem}
use kes.Tests.Data.{
  primitives, readers, secret_key, key_version, key_version-IsKeyVersion, key_message, codec,
  codec-Encodes, bytes16, random28, plain_aead, plain_aead-IsAead, one_key, mem_view, cache_of,
  my_key, request, policy,
}

abbrev sealed : Text
sealed = bytes16 ++ codes "text" ++ random28

abbrev decoder : Decoder
decoder = record {
  import_key = λ b. ok (record { bytes = []; cipher = [] });
  encrypt_key = λ b. ok (record { plaintext = codes "text"; context = codes "context" });
  generate_key = λ b. ok [];
  decrypt_key = λ b. ok (record { ciphertext = sealed; context = codes "context" });
  hmac = λ b. ok [];
}

abbrev pub libraries : Libraries
libraries = record {
  codec = codec;
  primitives = primitives;
  readers = readers;
  decoder = decoder;
  has_aes_gcm = true;
}

abbrev pub world : World
world = record { first_random = ok random28; second_random = ok random28; now = 9 }

abbrev state_of : {S : Type 0} → Cache.KeyCache S → ServerState S
state_of keys = record {
  start_time = 0;
  admin = codes "admin";
  keys = keys;
  policies = (codes "reader", policy) ∷ [];
  identities = (codes "alice", record { name = codes "reader"; policy = policy }) ∷ [];
  audit = [];
}

abbrev pub server : ServerState MemKeyStore
server = state_of (cache_of one_key)

my_key_valid : valid_name my_key ≡ true
unfolding word_char
my_key_valid = valid_name_lem my_key

bad_name : valid_name (codes "-a") ≡ false
unfolding word_char
bad_name = valid_name_lem (codes "-a")

abbrev offline_server : ServerState MemKeyStore
offline_server = state_of (record (cache_of one_key) { offline = true })

ready-offline_example :
    ready mem_key_store offline_server (request [])
    ≡ (offline_server, fail 504 (message "key store is not reachable") ∷ [])
ready-offline_example = ready-offline mem_key_store libraries world offline_server (request []) refl

one_reply_example :
    (length (create_key mem_key_store libraries world server (request my_key)).1 ≡ 1)
    × (length (import_key mem_key_store libraries world server (request my_key)).1 ≡ 1)
    × (length (describe_key mem_key_store libraries world server (request my_key)).1 ≡ 1)
    × (length (delete_key mem_key_store libraries world server (request my_key)).1 ≡ 1)
    × (length (encrypt_key mem_key_store libraries world server (request my_key)).1 ≡ 1)
    × (length (generate_key mem_key_store libraries world server (request my_key)).1 ≡ 1)
    × (length (decrypt_key mem_key_store libraries world server (request my_key)).1 ≡ 1)
    × (length (hmac_key mem_key_store libraries world server (request my_key)).1 ≡ 1)
one_reply_example = one_reply mem_key_store libraries world server (request my_key)

abbrev configured : Assoc Text PolicyConfig
configured =
    (
      codes "reader",
      record { allow = policy.allow; deny = policy.deny; identities = codes "alice" ∷ [] },
    )
    ∷ []

reader_valid : valid_name (codes "reader") ≡ true
unfolding word_char
reader_valid = valid_name_lem (codes "reader")

alice_valid : valid_name (codes "alice") ≡ true
unfolding word_char
alice_valid = valid_name_lem (codes "alice")

accepted : init_policies configured ≡ ok (server.policies, server.identities)
unfolding init_policies add_policies assign lookup put
accepted = rw (reader_valid, alice_valid) refl

distinct : Distinct configured
unfolding lookup
distinct = (refl, tt)

init_policies_lem_example :
    (valid_name (codes "alice") ≡ true)
    × (valid_name (codes "reader") ≡ true)
    × (lookup (codes "reader") server.policies ≡ some policy)
unfolding lookup
init_policies_lem_example =
    init_policies_lem configured server.policies server.identities (codes "alice")
      (record { name = codes "reader"; policy = policy }) distinct accepted refl

server-Coherent : Coherent mem_view codec (cache_of one_key)
unfolding Cow.get
server-Coherent = record { backed = λ j e h. cc; unbounded = refl }

aead : new_aead primitives secret_key (take 16 random28) ≡ ok plain_aead
unfolding new_aead
aead = refl

encrypted : encrypt primitives secret_key (ok random28) (codes "text") (codes "context") ≡ ok sealed
unfolding encrypt check_key new_aead
encrypted = refl

marshalled : key_version_marshal key_version ≡ ok key_message
unfolding key_version_marshal secret_key_marshal hmac_key_marshal
marshalled = refl

parsed : parse_key_version codec bytes16 ≡ ok key_version
parsed =
    (parse-encode codec key_version key_message bytes16 key_version-IsKeyVersion marshalled
      codec-Encodes).1

got : (Cache.get mem_key_store codec my_key (cache_of one_key)).1 ≡ ok key_version
unfolding Cache.get Cache.get_cached Cache.get_locked Cache.fetch Cow.get Memory.get lookup
got = rw parsed refl

decrypt_key-encrypt_key_example :
    ((encrypt_key mem_key_store libraries world server (request my_key)).1
      ≡ reply_with 200 (encrypt_key_body sealed) ∷ [])
    × ((decrypt_key mem_key_store libraries world
          (encrypt_key mem_key_store libraries world server (request my_key)).0
          (request my_key)).1
        ≡ reply_with 200 (decrypt_key_body (codes "text")) ∷ [])
decrypt_key-encrypt_key_example =
    decrypt_key-encrypt_key mem_key_store mem_view libraries world server (request my_key)
      (request my_key) (record { plaintext = codes "text"; context = codes "context" }) key_version
      random28 sealed plain_aead server-Coherent my_key_valid refl refl refl got refl refl aead
      plain_aead-IsAead encrypted refl
