-- ===== src/KeyStore/KeyControl/Answers.antt =====
-- What List of the Entrust key store returns of the answer of the server.
use kes.Prelude.{
  ◌≡◌, refl, sym, ap, ◌∙◌, not, List, [], ◌∷◌, ◌++◌, map, select, Text, text_eq, Bool-cases, inl,
  inr,
}
use mathlib.Core.List.{append_assoc, append-nil}
use kes.Api.Errors.{ok}
use kes.KeyStore.KeyControl.{Secret, Listing, Library, append_names, empty_names}
use kes.KeyStore.KeyControl.Calls.{page_of, next_prefix}

abbrev pub valid_names : List Secret → List Text
valid_names secrets = map (λ (s : Secret). s.name) (select (λ (s : Secret). not s.expired) secrets)

append_names_lem :
    (names : List Text) (secrets : List Secret)
    → append_names names secrets ≡ names ++ valid_names secrets
append_names_lem names [] = sym (append-nil names)
append_names_lem names (s ∷ secrets) = elim (Bool-cases s.expired) [
  | inl h ↦ rw (h) (append_names_lem names secrets)
  | inr h ↦ rw (h) (
      append_names_lem (names ++ (s.name ∷ [])) secrets
      ∙ append_assoc names (s.name ∷ []) (valid_names secrets))
]

empty_names_lem : (secrets : List Secret) → empty_names secrets ≡ map (λ (s : Secret). []) secrets
empty_names_lem [] = refl
empty_names_lem (s ∷ secrets) = ap (◌∷◌ []) (empty_names_lem secrets)

-- List returns an empty name for each secret of the answer, expired or not, before the names of those
-- that have not expired. It returns no error unless the continue token of the answer is malformed.
pub page_of-empty_names :
    (lib : Library) (l : Listing) (next : Text)
    → next_prefix lib l.next_token ≡ ok next
    → page_of lib l ≡ ok (map (λ (s : Secret). []) l.secrets ++ valid_names l.secrets, next)
unfolding page_of
page_of-empty_names lib l next h =
    rw (h, append_names_lem (empty_names l.secrets) l.secrets, empty_names_lem l.secrets) refl
