-- ===== src/Server/Setup.antt =====
-- initPolicies of state.go: the policies and the identities of a configuration.
-- Both Go maps are ranged over in an order that the program does not fix; it is that of the list.
pub mod Policies
use kes.Prelude.{not, List, [], ◌∷◌, arith, is_some, Text, text_eq}
use kes.Prelude.Maps.{Assoc, lookup, put}
use kes.Api.Errors.{Result, ok, ◌>>=◌, ◌>>◌, require, plain}
use kes.Auth.Names.{valid_name}
use kes.Auth.Requests.{Policy, IdentityEntry}

-- Policy of config.go. Allow and Deny are sets, here lists of paths.
pub record PolicyConfig : Type 0 where
  pub allow : List Text
  pub deny : List Text
  pub identities : List Text

abbrev pub policy_of : PolicyConfig → Policy
policy_of p = record { allow = p.allow; deny = p.deny }

-- The loop over the identities of one policy.
unfoldable pub assign :
    Text → Policy → List Text → Assoc Text IdentityEntry → Result (Assoc Text IdentityEntry)
assign name p [] identity_set = ok identity_set
assign name p (id ∷ ids) identity_set = do
  require (valid_name id) (
      plain (record {
        format = "kes: identity '%s' is empty, too long or contains invalid characters";
        args = id ∷ [];
      }))
  require (not (is_some (lookup id identity_set))) (
      plain (record {
        format = "kes: cannot assign policy '%s' to '%v': identity already has a policy";
        args = name ∷ id ∷ [];
      }))
  assign name p ids (put id (record { name = name; policy = p }) identity_set)

-- The loop over the policies.
unfoldable pub add_policies :
    Assoc Text PolicyConfig
    → Assoc Text Policy
    → Assoc Text IdentityEntry
    → Result (Assoc Text Policy × Assoc Text IdentityEntry)
add_policies [] policy_set identity_set = ok (policy_set, identity_set)
add_policies ((name, policy) ∷ policies) policy_set identity_set = do
  require (valid_name name) (
      plain (record {
        format = "kes: policy name '%s' is empty, too long or contains invalid characters";
        args = name ∷ [];
      }))
  identity_set' ← assign name (policy_of policy) policy.identities identity_set
  add_policies policies (put name (policy_of policy) policy_set) identity_set'

unfoldable pub init_policies :
    Assoc Text PolicyConfig → Result (Assoc Text Policy × Assoc Text IdentityEntry)
init_policies policies = add_policies policies [] []
