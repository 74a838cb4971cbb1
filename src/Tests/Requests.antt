-- ===== src/Tests/Requests.antt =====
-- Names, identities and errors.
use kes.Prelude.{
  ◌≡◌, refl, false, not, ◌&&◌, some, List, [], ◌∷◌, leb, length, every, Text, codes, text_beq,
  text_eq,
}
use kes.Prelude.Maps.{Assoc}
use kes.Api.Errors.{Error, code_error, wrapped, message, is_error}
use kes.Auth.Names.{valid_name}
use kes.Auth.Names.Rules.{valid_name_lem, name_char, starts_with, ends_with}
use kes.Auth.Requests.{Certificate, IdentityEntry}
use kes.Auth.Identify.{verify_identity}
use kes.Auth.Identify.Decisions.{verify_identity_lem, decide, sole_identity, client_certs}
use kes.Tests.Data.{my_key, http_request, identification, policy}

valid_name_lem_example : valid_name my_key ≡ (
    not (text_beq my_key [])
    && not (text_beq my_key (codes "_"))
    && leb (length my_key) 80
    && every name_char my_key
    && not (starts_with b'-' my_key)
    && not (ends_with b'-' my_key))
valid_name_lem_example = valid_name_lem my_key

abbrev certificates : List Certificate
certificates = record { is_ca = false; public_key_info = codes "alice" } ∷ []

abbrev entries : Assoc Text IdentityEntry
entries = (codes "alice", record { name = codes "reader"; policy = policy }) ∷ []

verify_identity_lem_example :
    verify_identity identification (codes "admin") entries http_request
    ≡ decide identification
        (codes "admin")
        entries
        http_request
        (sole_identity identification (client_certs certificates))
verify_identity_lem_example =
    verify_identity_lem identification (codes "admin") entries http_request certificates refl

abbrev refused : Error
refused = code_error 400 (message "refused")

found : is_error (wrapped refused) ≡ some refused
unfolding is_error
found = refl
