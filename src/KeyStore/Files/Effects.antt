-- ===== src/KeyStore/Files/Effects.antt =====
-- What the directory store keeps, and what it loses when the file system fails.
use kes.Prelude.{true, none, some, take, Text, text_eq, text_beq_iff, arith, ◌≡◌}
use kes.Prelude.Maps.{lookup, put, lookup-put, lookup-erase}
use kes.Api.Errors.{Error, ok}
use kes.KeyStore.Files.{
  Directory, Faults, valid_name, create_file, remove_file, create, max_size, get, written,
}

abbrev pub no_faults : Faults
no_faults = record {
  stat = none;
  open_failure = none;
  write = none;
  short = none;
  sync = none;
  close = none;
  read = none;
  remove = none;
  canceled = none;
}

-- A key created without a failure is read back, up to its first 2^20 bytes.
pub get_created :
    (name value : Text) (dir : Directory)
    → valid_name name ≡ true
    → lookup name dir ≡ none
    → get no_faults name ((create no_faults name value dir).0) ≡ ok (take max_size value)
unfolding get create create_file
get_created name value dir valid absent =
    ground (arith, lookup-put name name value dir, text_beq_iff name name)

-- A Create that fails after it made its file leaves the directory as it was, when os.Remove works.
pub create_failed :
    (f : Faults) (name value : Text) (dir : Directory) (e : Error)
    → f.open_failure ≡ none
    → f.remove ≡ none
    → (create f name value dir).1 ≡ some e
    → (j : Text) → lookup j ((create f name value dir).0) ≡ lookup j dir
unfolding create create_file remove_file
create_failed f name value dir e opens removes fails j = ground (
  arith,
  lookup-put name name (written f value) dir,
  lookup-put name j (written f value) dir,
  lookup-erase name j (put name (written f value) dir),
  text_beq_iff name name,
  text_beq_iff name j,
)

-- A Create that OpenFile fails for another reason than os.ErrExist removes the key that has its name.
pub create_loses :
    (f : Faults) (name value old : Text) (dir : Directory) (e : Error)
    → valid_name name ≡ true
    → f.open_failure ≡ some e
    → f.remove ≡ none
    → lookup name dir ≡ some old
    → (lookup name ((create f name value dir).0) ≡ none) × ((create f name value dir).1 ≡ some e)
unfolding create create_file remove_file
create_loses f name value old dir e valid opens removes present =
    ground (arith, lookup-erase name name dir, text_beq_iff name name)
