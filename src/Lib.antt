-- ===== src/Lib.antt =====
-- KES, a key management server: a verification library.
--
-- A client's request is authenticated (auth.go), and a handler of server.go answers it from the
-- state of the server (state.go): the admin, the policies, the identities and the key cache. The
-- key cache (keystore.go) keeps parsed keys in a copy-on-write map (internal/cache/cow.go) in front
-- of a KeyStore; keys are encoded and used by internal/crypto. The server is started from a Config
-- (config.go), changed and closed by the methods of Server (server.go), and kesconf makes that
-- Config of a configuration file.
--
-- Files and code:
--   Prelude            numbers, strings, maps as association lists, sorting
--   Cache.Cow          internal/cache/cow.go
--   Cache.Barrier      the uses of keys, by Lock and Unlock (internal/cache/barrier.go)
--   Api.Errors         the error chains, IsError (internal/api/error.go) and IsUnreachable
--                      (internal/keystore/keystore.go)
--   Api.Multicast      Multicast (internal/api/multicast.go)
--   Http.Retry         Retry (internal/http/retry.go)
--   Auth.Names         validName and validPattern (auth.go)
--   Auth.Requests      what authentication reads of a request; identityEntry (state.go)
--   Auth.Identify      verifyIdentity, insecureIdentifyOnly and identifyRequest (auth.go)
--   Conf.Sections      the sections of a configuration file about key stores (kesconf/config.go)
--   Conf.Yml           ymlFile (kesconf/config.go)
--   Conf.File          File and its parts (kesconf/file.go)
--   Conf.Checks        the forms of the checks of ymlToKeyStore (kesconf/config.go)
--   Conf.Vault, Conf.Clouds, Conf.Stores
--                      ymlToKeyStore (kesconf/config.go)
--   Conf.Texts         what kesconf uses of strings, strconv and int
--   Conf.Levels        parseLogLevel (kesconf/config.go)
--   Conf.Server        ymlToServerConfig (kesconf/config.go)
--   Conf.Version       findVersion (kesconf/config.go)
--   Conf.Backends      the configurations of the back ends (internal/keystore)
--   Conf.Connect       the Connect methods (kesconf/file.go)
--   Conf.Config        File.TLSConfig, File.Config and ReadFrom (kesconf/file.go)
--   Crypto.Keys        keys and their protobuf messages (internal/crypto/key.go)
--   Crypto.Encoding    EncodeKeyVersion and ParseKeyVersion (internal/crypto/key.go)
--   Crypto.Ciphertext  the ciphertext formats (internal/crypto/ciphertext.go)
--   Crypto.Cipher      Encrypt and Decrypt (internal/crypto/key.go)
--   KeyStore.Interface the KeyStore interface (keystore.go)
--   KeyStore.Memory    MemKeyStore (keystore.go)
--   KeyStore.Listing   List (internal/keystore/keystore.go)
--   KeyStore.Files     the store in a directory (internal/keystore/fs/fs.go)
--   KeyStore.KeySecure the store at a Gemalto KeySecure (internal/keystore/gemalto/key-secure.go)
--   KeyStore.Remote    what the stores at a server have in common: chains of calls that may fail
--   KeyStore.Json      decoded JSON values
--   KeyStore.Vault     the store at a Hashicorp Vault (internal/keystore/vault)
--   KeyStore.Fortanix  the store at a Fortanix SDKMS (internal/keystore/fortanix/keystore.go)
--   KeyStore.KeyControl
--                      the store at an Entrust KeyControl (internal/keystore/entrust/keycontrol.go)
--   KeyStore.SecretsManager
--                      the store at AWS (internal/keystore/aws/secrets-manager.go)
--   KeyStore.SecretManager
--                      the store at GCP (internal/keystore/gcp/secret-manager.go)
--   KeyStore.Encrypted the encrypted store in a directory (internal/keystore/efs/efs.go)
--   KeyStore.Cache     keyCache and its collectors (keystore.go)
--   Server.State       serverState (state.go) and the responses (internal/api/response.go)
--   Server.Keys        the handlers for keys (server.go)
--   Server.Lists       the handlers for policies and identities (server.go)
--   Server.Setup       initPolicies (state.go)
--   Server.Config      Config and verifyConfig (config.go)
--   Server.Logs        the log handler (log.go) and the audit logger (audit.go)
--   Server.Predefined  createPredefinedKeys (server.go)
--   Server.Lifecycle   Server, UpdateAdmin, UpdateTLS and UpdatePolicies (server.go)
--   Server.Start       Start and Update (server.go)
--   Server.Close       Close (server.go)
--   Server.Reach       the servers that calls can make
--   Server.Updated     a server after an Update
--   Server.Closed      a server after a Close
--   Server.Routes      Route.ServeHTTP (internal/api/api.go)
--   Server.Table       initRoutes (state.go)
--   Tests              runs of the theorems at concrete inputs
-- A module below one of these holds theorems about it, and is named for what they show.
--
-- A method on a pointer takes the state as its last argument and returns the new state first. A nil
-- error is `none` or `ok`, and a panic is a result of its own. Go maps are association lists, whose
-- order stands for the order of `range`. Loops are recursion on the list that they range over, so
-- no fuel is needed; strings.TrimSpace cuts at most as often as the text is long, which is its
-- fuel, and for the loop of KeyStore.KeySecure over pages one more than there are keys is enough.
-- The loop of KeyStore.Fortanix over pages is on fuel, and `none` is an unfinished loop. The loop
-- of Http.Retry counts its attempts. Names and other strings are lists of bytes, and times are
-- numbers.
--
-- Parameters: the protobuf, JSON, base64 and MessagePack encoders, the ciphers of the standard
-- library and golang.org/x/crypto, the random source, the clock, the fingerprints of certificates
-- and the policy check of the SDK. Their documented behaviour is a hypothesis where it is needed
-- (IsAead, Encodes, Serves, IsKv1, IsTransit, IsSecretsManager, IsSecretManager, Calm), and the
-- contract of a key store is IsKeyStore, which MemKeyStore meets.
--
-- The other back ends, the certificates and the files of a configuration are arguments as well. A
-- method of Server holds its mutex to the end, so calls are steps; the uses of the keys of a
-- Barrier are interleaved step by step, and so are the goroutines of a Multicast.
--
-- Not modelled: ListenAndStart and the goroutine that closes a server when its context ends,
-- metrics and the encoding of log records, the Azure back end, the renewal of the KeySecure
-- token, the status checks of Vault, how the other back ends connect, the references to
-- environment variables of a configuration file, and the command line. The key cache is one call
-- after the other, but for the one interleaving of KeyStore.Cache.Race.
pub mod Prelude
pub mod Cache
pub mod Api
pub mod Auth
pub mod Conf
pub mod Crypto
pub mod Http
pub mod KeyStore
pub mod Server
pub mod Tests
