-- ===== src/Server/Lists/Answers.antt =====
-- What the listings and the descriptions of policies and identities answer.
use kes.Prelude.{
  ◌≡◌, refl, ap, ◌∙◌, inl, inr, Bool, true, false, ◌&&◌, ◌||◌, none, List, [], ◌∷◌, arith,
  Option-cases, is_some, select, Text, text_beq, text_beq_iff, text_eq, has_prefix,
}
use kes.Prelude.Maps.{Assoc, Distinct, contains, lookup}
use kes.Prelude.Sorting.{sort, insert, Ascending, sort-Ascending}
use kes.Cache.Cow.{key_list}
use kes.Api.Errors.{ok, sdk, identity_not_found}
use kes.Auth.Names.{valid_name, valid_pattern}
use kes.Auth.Requests.{Policy, Request}
use kes.Server.State.{ServerState, list_policies_body, list_identities_body, reply_with, fail_error}
use kes.Server.Lists.{trim_star, matching, list_policies, list_identities, self_describe_identity}
use kes.Server.Setup.{PolicyConfig, init_policies}
use kes.Server.Setup.Policies.{init_policies_lem}

contains-insert :
    (n x : Text) (ys : List Text) → contains n (insert x ys) ≡ (text_beq x n || contains n ys)
unfolding insert
contains-insert n x [] = refl
contains-insert n x (y ∷ ys) = ground (arith, contains-insert n x ys)

contains-sort : (n : Text) (xs : List Text) → contains n (sort xs) ≡ contains n xs
unfolding sort
contains-sort n [] = refl
contains-sort n (x ∷ xs) =
    contains-insert n x (sort xs) ∙ ap (λ b. text_beq x n || b) (contains-sort n xs)

contains-select :
    (p : Text → Bool) (n : Text) (xs : List Text)
    → contains n (select p xs) ≡ (p n && contains n xs)
contains-select p n [] = ground arith
contains-select p n (x ∷ xs) = ground (arith, text_beq_iff x n, contains-select p n xs)

contains-key_list {ℓ} :
    {V : Type ℓ} (n : Text) (m : Assoc Text V) → contains n (key_list m) ≡ is_some (lookup n m)
unfolding lookup key_list
contains-key_list n [] = refl
contains-key_list n ((k, v) ∷ m) = ground (arith, contains-key_list n m)

-- Which names a pattern keeps: every name for the empty pattern and for "*", else those that start
-- with the pattern less a star at its end.
abbrev pub keeps : Text → Text → Bool
keeps pattern name =
    text_beq pattern [] || text_beq pattern (b'*' ∷ []) || has_prefix (trim_star pattern) name

matching_lem :
    (pattern n : Text) (names : List Text)
    → contains n (matching pattern names) ≡ (keeps pattern n && contains n names)
unfolding matching
matching_lem pattern n names =
    ground (arith, contains-select (has_prefix (trim_star pattern)) n names)

module _ {S : Type 0} (st : ServerState S) where
  -- For a valid pattern, listPolicies sends one list of names in ascending order, which has exactly
  -- the names of policies that the pattern keeps; it changes nothing.
  pub list_policies_lem :
      (req : Request)
      → valid_pattern req.resource ≡ true
      → (names : List Text) × (list_policies st req
          ≡ (st, reply_with 200 (list_policies_body names) ∷ []))
        × Ascending names
        × ((n : Text) → contains n names ≡ (keeps req.resource n && is_some (lookup n st.policies)))
  unfolding list_policies
  list_policies_lem req v =
      let names : List Text = sort (matching req.resource (key_list st.policies)) in
      (
        names,
        rw v refl,
        sort-Ascending _,
        λ n.
            contains-sort n _
            ∙ matching_lem req.resource n _
            ∙ ap (λ b. keeps req.resource n && b) (contains-key_list n st.policies),
      )

  -- For a valid pattern, listIdentities sends one list in ascending order, which has exactly those
  -- that the pattern keeps of the admin and the identities that have a policy; it changes nothing.
  pub list_identities_lem :
      (req : Request)
      → valid_pattern req.resource ≡ true
      → (ids : List Text) × (list_identities st req
          ≡ (st, reply_with 200 (list_identities_body ids) ∷ []))
        × Ascending ids
        × ((id : Text)
            → contains id ids ≡ (
                keeps req.resource id
                && (text_beq st.admin id || is_some (lookup id st.identities))))
  unfolding list_identities
  list_identities_lem req v =
      let ids : List Text = sort (matching req.resource (st.admin ∷ key_list st.identities)) in
      (
        ids,
        rw v refl,
        sort-Ascending _,
        λ id.
            contains-sort id _
            ∙ matching_lem req.resource id _
            ∙ ap (λ b. keeps req.resource id && (text_beq st.admin id || b))
                (contains-key_list id st.identities),
      )

  -- If the identities come from initPolicies, of policies with distinct names, and a request
  -- without a resource, as on the self-describe path, is not from the admin, then
  -- selfDescribeIdentity answers that the identity is not found, whatever policy the client has.
  pub self_describe-unknown :
      (ps : Assoc Text PolicyConfig) (policies : Assoc Text Policy) (req : Request)
      → Distinct ps
      → init_policies ps ≡ ok (policies, st.identities)
      → req.resource ≡ []
      → text_beq req.identity st.admin ≡ false
      → self_describe_identity st req ≡ (st, fail_error (sdk identity_not_found) ∷ [])
  unfolding self_describe_identity
  self_describe-unknown ps policies req d h r a =
      let missing : lookup [] st.identities ≡ none = elim (Option-cases (lookup [] st.identities)) [
        | inl n ↦ n
        | inr (e, s) ↦
            let v = (init_policies_lem ps policies st.identities [] e d h s).0 in
            absurd (unfold valid_name in ground arith)
      ] in
      rw (a, r) (rw missing refl)
