-- ===== src/Conf/Stores/Chosen.antt =====
-- ymlToKeyStore against a description that does not thread the variable `keystore` through.
use kes.Prelude.{◌≡◌, refl, ◌∙◌, ◌↔◌, Option, none, some, List, [], ◌∷◌}
use kes.Api.Errors.{Result, ok, err, panic, ◌>>=◌}
use kes.Conf.Sections.{KesSection, KeyStoreSections}
use kes.Conf.File.{KeyStore}
use kes.Conf.Checks.{Os}
use kes.Conf.Vault.{read_fs, read_encrypted_fs, read_vault}
use kes.Conf.Clouds.{
  read_sdkms, read_key_secure, read_secret_manager, read_secrets_manager, read_key_vault,
  read_key_control,
}
use kes.Conf.Stores.{more_than_one, read_section, inner, specified, yml_to_key_store}

-- What the section says on its own, where it is there, before the others.
unfoldable pub alone :
    {A : Type 0}
    → Option A
    → (A → Result KeyStore)
    → List (Result KeyStore)
    → List (Result KeyStore)
alone none read others = others
alone (some y) read others = read y ∷ others

-- What each section that the function reads, and that is there, says on its own, in the order of the
-- code. The function does not read the section KES.
abbrev pub configured : Os → KeyStoreSections → List (Result KeyStore)
configured os y = alone y.fs read_fs (
    alone y.encrypted_fs read_encrypted_fs (
      alone y.vault (read_vault os) (
        alone (inner y.fortanix) read_sdkms (
          alone (inner y.gemalto) read_key_secure (
            alone (inner y.gcp) read_secret_manager (
              alone (inner y.aws) read_secrets_manager (
                alone (inner y.azure) read_key_vault
                  (alone (inner y.entrust) read_key_control []))))))))

-- The first one's error, or its key store if there is no second.
abbrev pub chosen : List (Result KeyStore) → Result KeyStore
chosen [] = specified none
chosen (r ∷ []) = r
chosen (r ∷ s ∷ rs) = r >>= λ (store : KeyStore). err more_than_one

-- The rest of the function, from a value of `keystore`.
unfoldable continued : List (Result KeyStore) → Option KeyStore → Result KeyStore
continued [] keystore = specified keystore
continued (r ∷ rs) none = r >>= λ (store : KeyStore). continued rs (some store)
continued (r ∷ rs) (some store) = err more_than_one

>>=-read_section :
    {A : Type 0} (m : Result (Option KeyStore)) (o : Option A) (read : A → Result KeyStore)
    (rs : List (Result KeyStore))
    → (m >>= read_section o read >>= continued rs) ≡ (m >>= continued (alone o read rs))
unfolding read_section continued alone
>>=-read_section (panic why) o read rs = refl
>>=-read_section (err e) o read rs = refl
>>=-read_section (ok keystore) none read rs = refl
>>=-read_section (ok (some store)) (some y) read rs = refl
>>=-read_section (ok none) (some y) read rs =
    elim (read y)
      as (λ r.
        ((r >>= λ (s : KeyStore). ok (some s)) >>= continued rs)
        ≡ (r >>= λ (s : KeyStore). continued rs (some s))) [
          | panic why ↦ refl
          | err e ↦ refl
          | ok s ↦ refl
        ]

continued-none : (rs : List (Result KeyStore)) → continued rs none ≡ chosen rs
unfolding continued
continued-none [] = refl
continued-none (panic why ∷ []) = refl
continued-none (err e ∷ []) = refl
continued-none (ok s ∷ []) = refl
continued-none (panic why ∷ r ∷ rs) = refl
continued-none (err e ∷ r ∷ rs) = refl
continued-none (ok s ∷ r ∷ rs) = refl

-- The function is `chosen` of what the sections say on their own.
pub yml_to_key_store-chosen :
    (os : Os) (y : KeyStoreSections) → yml_to_key_store os y ≡ chosen (configured os y)
unfolding yml_to_key_store continued
yml_to_key_store-chosen os y =
    >>=-read_section _ (inner y.entrust) read_key_control []
    ∙ >>=-read_section _ (inner y.azure) read_key_vault _
    ∙ >>=-read_section _ (inner y.aws) read_secrets_manager _
    ∙ >>=-read_section _ (inner y.gcp) read_secret_manager _
    ∙ >>=-read_section _ (inner y.gemalto) read_key_secure _
    ∙ >>=-read_section _ (inner y.fortanix) read_sdkms _
    ∙ >>=-read_section _ y.vault (read_vault os) _
    ∙ >>=-read_section _ y.encrypted_fs read_encrypted_fs _
    ∙ >>=-read_section (ok none) y.fs read_fs _
    ∙ continued-none (alone y.fs read_fs _)

chosen_iff :
    (rs : List (Result KeyStore)) (store : KeyStore) → (chosen rs ≡ ok store) ↔ (rs ≡ ok store ∷ [])
chosen_iff [] store = (λ h. cc, λ h. cc)
chosen_iff (r ∷ []) store = (λ h. rw h refl, λ h. cc)
chosen_iff (panic why ∷ r ∷ rs) store = (λ h. cc, λ h. cc)
chosen_iff (err e ∷ r ∷ rs) store = (λ h. cc, λ h. cc)
chosen_iff (ok s ∷ r ∷ rs) store = (λ h. cc, λ h. cc)

-- ymlToKeyStore returns a key store exactly where one of the nine sections that it reads is there,
-- and that section on its own gives that key store: with none or two of the nine it never returns a
-- key store. The section KES, whatever it holds, does not count: it neither gives a key store nor
-- stops another section from giving one.
pub yml_to_key_store_iff :
    (os : Os) (y : KeyStoreSections) (section : Option KesSection) (store : KeyStore)
    → (yml_to_key_store os (record y { kes = section }) ≡ ok store)
      ↔ (configured os y ≡ ok store ∷ [])
yml_to_key_store_iff os y section store =
    rw (yml_to_key_store-chosen os (record y { kes = section }))
      (chosen_iff (configured os y) store)
