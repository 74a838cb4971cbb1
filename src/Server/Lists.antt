-- ===== src/Server/Lists.antt =====
-- The handlers of server.go for policies and identities. They only read the state.
pub mod Answers
use kes.Prelude.{
  String, true, false, not, ◌||◌, none, some, List, [], ◌∷◌, arith, ◌==◌, if◌then◌else◌, select,
  Text, text_beq, text_eq, has_prefix,
}
use kes.Prelude.Maps.{lookup}
use kes.Prelude.Sorting.{sort}
use kes.Cache.Cow.{key_list}
use kes.Api.Errors.{sdk, policy_not_found, identity_not_found}
use kes.Auth.Names.{valid_name, valid_pattern}
use kes.Auth.Requests.{Request}
use kes.Server.State.{
  ServerState, describe_policy_body, read_policy_body, list_policies_body, describe_identity_body,
  list_identities_body, self_describe_body, reply_with, fail_error, Handled, invalid_name,
}

abbrev pub policy_format : String
policy_format = "policy name '%s' is empty, too long or contains invalid characters"

abbrev pub pattern_format : String
pattern_format = "listing pattern '%s' is empty, too long or is invalid"

abbrev pub identity_format : String
identity_format = "identity '%s' is empty, too long or contains invalid characters"

-- if prefix[len(prefix)-1] == '*' { prefix = prefix[:len(prefix)-1] }
unfoldable pub trim_star : Text → Text
trim_star [] = []
trim_star (c ∷ []) = if c == b'*' then [] else c ∷ []
trim_star (c ∷ d ∷ s) = c ∷ trim_star (d ∷ s)

-- The names that a listing keeps.
unfoldable pub matching : Text → List Text → List Text
matching pattern names =
    if text_beq pattern [] || text_beq pattern (b'*' ∷ [])
    then names
    else select (has_prefix (trim_star pattern)) names

module _ {S : Type 0} (st : ServerState S) where
  unfoldable pub describe_policy : Request → Handled S
  describe_policy req =
      if not (valid_name req.resource)
      then (st, invalid_name policy_format req.resource)
      else elim (lookup req.resource st.policies) [
        | none ↦ (st, fail_error (sdk policy_not_found) ∷ [])
        | some policy ↦
            (st, reply_with 200 (describe_policy_body req.resource st.start_time st.admin) ∷ [])
      ]

  unfoldable pub read_policy : Request → Handled S
  read_policy req =
      if not (valid_name req.resource)
      then (st, invalid_name policy_format req.resource)
      else elim (lookup req.resource st.policies) [
        | none ↦ (st, fail_error (sdk policy_not_found) ∷ [])
        | some policy ↦ (
          st,
          reply_with 200 (
                read_policy_body
                  (record { name = req.resource; allow = policy.allow; deny = policy.deny })
                  st.start_time st.admin)
              ∷ [],
        )
      ]

  unfoldable pub list_policies : Request → Handled S
  list_policies req =
      if not (valid_pattern req.resource) then (st, invalid_name pattern_format req.resource) else (
        st,
        reply_with 200 (list_policies_body (sort (matching req.resource (key_list st.policies))))
            ∷ [],
      )

  unfoldable pub describe_identity : Request → Handled S
  describe_identity req =
      if not (valid_name req.resource)
      then (st, invalid_name identity_format req.resource)
      else if text_beq req.resource st.admin
      then (st, reply_with 200 (describe_identity_body true [] st.start_time []) ∷ [])
      else elim (lookup req.resource st.identities) [
        | none ↦ (st, fail_error (sdk identity_not_found) ∷ [])
        | some info ↦ (
          st,
          reply_with 200 (describe_identity_body false info.name st.start_time st.admin) ∷ [],
        )
      ]

  unfoldable pub list_identities : Request → Handled S
  list_identities req =
      if not (valid_pattern req.resource) then (st, invalid_name pattern_format req.resource) else (
        st,
        reply_with 200 (
              list_identities_body
                (sort (matching req.resource (st.admin ∷ key_list st.identities))))
            ∷ [],
      )

  -- The lookup is by the resource of the request, as in the source.
  unfoldable pub self_describe_identity : Request → Handled S
  self_describe_identity req =
      if text_beq req.identity st.admin
      then (st, reply_with 200 (self_describe_body req.identity true st.start_time [] none) ∷ [])
      else elim (lookup req.resource st.identities) [
        | none ↦ (st, fail_error (sdk identity_not_found) ∷ [])
        | some info ↦ (
          st,
          reply_with 200 (
                self_describe_body req.identity false st.start_time st.admin (
                  some (record {
                    name = info.name;
                    allow = info.policy.allow;
                    deny = info.policy.deny;
                  })))
              ∷ [],
        )
      ]
