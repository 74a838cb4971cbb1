-- ===== src/KeyStore/Files.antt =====
-- internal/keystore/fs/fs.go: the key store in a directory. The directory is a map from file names to
-- contents. A valid name has no separator and no dot, so filepath.Join with the directory keeps names
-- apart. The directory itself exists; each call meets the other outcomes of its calls of package os as
-- an argument.
pub mod Effects
use kes.Prelude.{
  ℕ, ◌^◌, Bool, false, not, ◌||◌, Option, none, some, List, [], ◌∷◌, if◌then◌else◌, ◌==◌, take, ℤ,
  is_some, Text, text_eq, text_beq, nat_eq, arith, map,
}
use kes.Prelude.Maps.{Assoc, lookup, put, erase, contains}
use kes.Api.Errors.{
  Error, Result, ok, err, plain, message, unreachable, sdk, key_exists, key_not_found,
}
use kes.KeyStore.Interface.{KeyStoreState}
use kes.KeyStore.Listing

-- Store, without its lock: Create holds it to the end, and Get for reading.
abbrev pub Directory : Type 0
Directory = Assoc Text Text

-- The failures of the calls of package os in one method; `none` is a nil error. `open_failure` is a
-- failure of OpenFile or Open that does not depend on whether the file exists, such as too many open
-- files; `short` is a Write of fewer bytes than it is given, without an error.
pub record Faults : Type 0 where
  pub stat : Option Error
  pub open_failure : Option Error
  pub write : Option Error
  pub short : Option ℕ
  pub sync : Option Error
  pub close : Option Error
  pub read : Option Error
  pub remove : Option Error
  pub canceled : Option Error

-- What a call of package os returns: os.ErrExist, os.ErrNotExist or another error.
pub data OsError : Type 0 where
  exists not_exists : OsError
  other : Error → OsError

abbrev pub invalid_byte : ℕ → Bool
invalid_byte c = c == b'/' || (c == b'\\' || c == b'.')

abbrev pub any_invalid : Text → Bool
any_invalid [] = false
any_invalid (c ∷ s) = invalid_byte c || any_invalid s

-- validName; the three characters are ASCII, so bytes tell as much as runes.
unfoldable pub valid_name : Text → Bool
valid_name name = not (text_beq name [] || any_invalid name)

abbrev pub invalid_name : Error
invalid_name = plain (message "fs: key name contains invalid character")

-- The first failure.
abbrev pub first : Option Error → Option OsError → Option OsError
first (some e) rest = some (other e)
first none rest = rest

abbrev pub short_write : Option ℕ → Option OsError → Option OsError
short_write none rest = rest
short_write (some n) rest = some (other (plain (message "short write")))

-- What of the value is in the file once Write returns.
abbrev pub written : Faults → Text → Text
written f value =
    if is_some f.write then [] else elim f.short [ none ↦ value | some n ↦ take n value ]

-- The method create: the directory after it, and its error.
unfoldable pub create_file : Faults → Text → Text → Directory → Directory × Option OsError
create_file f name value dir = elim f.open_failure [
  | some e ↦ (dir, some (other e))
  | none ↦ if is_some (lookup name dir) then (dir, some exists) else (
    put name (written f value) dir,
    first f.write (short_write f.short (first f.sync (first f.close none))),
  )
]

-- os.Remove
unfoldable pub remove_file : Faults → Text → Directory → Directory × Option OsError
remove_file f name dir = elim f.remove [
  | some e ↦ (dir, some (other e))
  | none ↦ if is_some (lookup name dir) then (erase name dir, none) else (dir, some not_exists)
]

-- The switch of Create on the error of create.
abbrev pub created : Faults → Text → Directory × Option OsError → Directory × Option Error
created f name (dir, none) = (dir, none)
created f name (dir, some exists) = (dir, some (sdk key_exists))
created f name (dir, some not_exists) =
    ((remove_file f name dir).0, some (plain (message "file does not exist")))
created f name (dir, some (other e)) = ((remove_file f name dir).0, some e)

unfoldable pub create : Faults → Text → Text → Directory → Directory × Option Error
create f name value dir =
    if valid_name name
    then created f name (create_file f name value dir)
    else (dir, some invalid_name)

-- 1 * mem.MiB: mem.LimitReader ends the file there.
abbrev pub max_size : ℕ
max_size = 2 ^ 20

abbrev pub fail_first {ℓ} : {A : Type ℓ} → Option Error → Result A → Result A
fail_first none r = r
fail_first (some e) r = err e

abbrev pub content : Option Text → Result Text
content none = err (sdk key_not_found)
content (some b) = ok (take max_size b)

unfoldable pub get : Faults → Text → Directory → Result Text
get f name dir =
    if valid_name name
    then fail_first f.open_failure (
        if is_some (lookup name dir)
        then fail_first f.read (fail_first f.close (content (lookup name dir)))
        else err (sdk key_not_found))
    else err invalid_name

abbrev pub removed : Directory × Option OsError → Directory × Option Error
removed (dir, none) = (dir, none)
removed (dir, some not_exists) = (dir, some (sdk key_not_found))
removed (dir, some exists) = (dir, some (plain (message "file already exists")))
removed (dir, some (other e)) = (dir, some e)

unfoldable pub delete : Faults → Text → Directory → Directory × Option Error
delete f name dir =
    if valid_name name then removed (remove_file f name dir) else (dir, some invalid_name)

abbrev pub names_of : Directory → List Text
names_of [] = []
names_of ((name, b) ∷ dir) = name ∷ names_of dir

-- `canceled` is the error of a context that is done.
unfoldable pub list : Faults → Text → ℤ → Directory → Result (List Text × Text)
list f prefix n dir =
    fail_first f.open_failure
      (fail_first f.read (fail_first f.canceled (ok (Listing.list (names_of dir) prefix n))))

-- Status, with the time that os.Stat takes.
unfoldable pub status : Faults → ℕ → Result KeyStoreState
status f latency = elim f.stat [
  | some e ↦ err (unreachable e)
  | none ↦ ok (record { latency = latency })
]

-- What os.Stat tells of a path.
pub data PathStat : Type 0 where
  missing directory not_directory : PathStat
  failed : Error → PathStat

-- NewStore; `make_failure` is the error of os.MkdirAll.
unfoldable pub new_store : PathStat → Option Error → Text → Result Text
new_store missing make_failure dir = fail_first make_failure (ok dir)
new_store directory make_failure dir = ok dir
new_store not_directory make_failure dir =
    err (plain (record { format = "fs: '%s' is not a directory"; args = dir ∷ [] }))
new_store (failed e) make_failure dir = err e
