-- ===== src/Server/Setup/Policies.antt =====
-- What initPolicies accepts, and what it builds.
use kes.Prelude.{
  ◌≡◌, refl, inl, inr, true, not, none, some, List, [], ◌∷◌, arith, if◌then◌else◌, Bool-cases,
  Option-cases, is_some, Text, text_beq, text_beq_iff, text_eq,
}
use kes.Prelude.{is_some}
use kes.Prelude.Maps.{Distinct, Assoc, lookup, put, lookup-put, contains}
use kes.Api.Errors.{ok, require, >>=-eq-ok}
use kes.Auth.Names.{valid_name}
use kes.Auth.Requests.{Policy, IdentityEntry}
use kes.Server.Setup.{PolicyConfig, policy_of, assign, add_policies, init_policies}

-- What the loop over the identities of one policy leaves: the identities of the list have valid
-- names, had no policy and have this one now; the others are as before.
assign_lem :
    (name : Text) (p : Policy) (ids : List Text) (before after : Assoc Text IdentityEntry)
    → assign name p ids before ≡ ok after
    → (id : Text)
    → (lookup id after
        ≡ (if contains id ids then some (record { name = name; policy = p }) else lookup id before))
      × (contains id ids ≡ true → (valid_name id ≡ true) × (lookup id before ≡ none))
unfolding assign
assign_lem name p [] before after e id = ground arith
assign_lem name p (i ∷ ids) before after e id =
    let (u, valid, rest) = >>=-eq-ok (require (valid_name i) _) _ e in
    let (u', free, rest') = >>=-eq-ok (require (not (is_some (lookup i before))) _) _ rest in
    let ih = assign_lem name p ids _ after rest' id in
    let ok_name : valid_name i ≡ true = elim (Bool-cases (valid_name i)) [
      | inl t ↦ t
      | inr f ↦ ground arith
    ] in
    let unset : lookup i before ≡ none = elim (Option-cases (lookup i before)) [
      | inl n ↦ n
      | inr (w, s) ↦ ground arith
    ] in
    ground (
      arith,
      text_beq_iff i id,
      lookup-put i id (record { name = name; policy = p }) before,
      ih,
      ok_name,
      unset,
    )

-- The loop over the policies keeps three facts: the names of the policies are valid, so are those of
-- the identities, and the entry of an identity holds the policy that the set has under its name.
record IsPolicySet (policies : Assoc Text Policy) (identities : Assoc Text IdentityEntry)
    : Type 0 where
  policy_name : (name : Text) (p : Policy) → lookup name policies ≡ some p → valid_name name ≡ true
  identity_name :
      (id : Text) (e : IdentityEntry) → lookup id identities ≡ some e → valid_name id ≡ true
  has_policy :
      (id : Text) (e : IdentityEntry)
      → lookup id identities ≡ some e
      → lookup e.name policies ≡ some e.policy

added_policy :
    (name : Text) (p : PolicyConfig) (policies : Assoc Text Policy)
    (identities assigned : Assoc Text IdentityEntry)
    → valid_name name ≡ true
    → lookup name policies ≡ none
    → assign name (policy_of p) p.identities identities ≡ ok assigned
    → IsPolicySet policies identities
    → IsPolicySet (put name (policy_of p) policies) assigned
added_policy name p policies identities assigned v n a h = record {
  policy_name = λ j q g. elim (Bool-cases (text_beq name j)) [
    | inl t ↦ rw (← (text_beq_iff name j).0 t) v
    | inr t ↦ h.policy_name j q (ground (arith, t, g, lookup-put name j (policy_of p) policies))
  ];
  identity_name = λ id e g. elim (Bool-cases (contains id p.identities)) [
    | inl t ↦ ((assign_lem name (policy_of p) p.identities identities assigned a id).1 t).0
    | inr t ↦ h.identity_name id e (
        ground
          (arith, t, g, (assign_lem name (policy_of p) p.identities identities assigned a id).0))
  ];
  has_policy = λ id e g. elim (Bool-cases (contains id p.identities)) [
    | inl t ↦
        let entry : record { name = name; policy = policy_of p } ≡ e =
          ground (
            arith,
            t,
            g,
            (assign_lem name (policy_of p) p.identities identities assigned a id).0,
          ) in
        rw (← entry) (
          ground
            (arith, (text_beq_iff name name).1 refl, lookup-put name name (policy_of p) policies))
    | inr t ↦
        let has = h.has_policy id e (
          ground (
            arith,
            t,
            g,
            (assign_lem name (policy_of p) p.identities identities assigned a id).0,
          )) in
        ground
          (arith, has, n, text_beq_iff name e.name, lookup-put name e.name (policy_of p) policies)
  ];
}

-- A policy that is still to come is not among those that have been added.
add_policies-free :
    (name j : Text) (p : PolicyConfig) (ps : Assoc Text PolicyConfig) (policies : Assoc Text Policy)
    → Distinct ((name, p) ∷ ps)
    → ((i : Text) → is_some (lookup i ((name, p) ∷ ps)) ≡ true → lookup i policies ≡ none)
    → is_some (lookup j ps) ≡ true
    → lookup j (put name (policy_of p) policies) ≡ none
add_policies-free name j p ps policies d f g =
    let there : is_some (lookup j ((name, p) ∷ ps)) ≡ true = unfold lookup in ground (arith, g) in
    ground (arith, g, f j there, d.0, text_beq_iff name j, lookup-put name j (policy_of p) policies)

-- The loop over the policies of a map, whose keys are distinct, from a set that has none of them.
add_policies_lem :
    (ps : Assoc Text PolicyConfig) (policies policies' : Assoc Text Policy)
    (identities identities' : Assoc Text IdentityEntry)
    → Distinct ps
    → ((name : Text) → is_some (lookup name ps) ≡ true → lookup name policies ≡ none)
    → IsPolicySet policies identities
    → add_policies ps policies identities ≡ ok (policies', identities')
    → IsPolicySet policies' identities'
unfolding add_policies
add_policies_lem [] policies policies' identities identities' d f h e =
    let p : policies ≡ policies' = ground arith in
    let i : identities ≡ identities' = ground arith in rw (← p, ← i) h
add_policies_lem ((name, p) ∷ ps) policies policies' identities identities' d f h e =
    let (u, valid, rest) = >>=-eq-ok (require (valid_name name) _) _ e in
    let (assigned, a, rest') =
      >>=-eq-ok (assign name (policy_of p) p.identities identities) _ rest in
    let ok_name : valid_name name ≡ true = elim (Bool-cases (valid_name name)) [
      | inl t ↦ t
      | inr f ↦ ground arith
    ] in
    let same : text_beq name name ≡ true = (text_beq_iff name name).1 refl in
    let unset : lookup name policies ≡ none = f name (unfold lookup in rw same refl) in
    let kept = added_policy name p policies identities assigned ok_name unset a h in
    add_policies_lem ps _ policies' assigned identities' d.1
      (λ j g. add_policies-free name j p ps policies d f g) kept rest'

-- If no two policies of a configuration have the same name and initPolicies accepts it, then each
-- identity that it enters has a valid name, the policy of its entry has a valid name too, and the
-- policies have the policy of the entry under that name.
pub init_policies_lem :
    (ps : Assoc Text PolicyConfig) (policies : Assoc Text Policy)
    (identities : Assoc Text IdentityEntry) (id : Text) (e : IdentityEntry)
    → Distinct ps
    → init_policies ps ≡ ok (policies, identities)
    → lookup id identities ≡ some e
    → (valid_name id ≡ true) × (valid_name e.name ≡ true) × (lookup e.name policies ≡ some e.policy)
unfolding init_policies
init_policies_lem ps policies identities id e d h l =
    let empty : IsPolicySet [] [] =
      unfold lookup in
      record { policy_name = λ n p g. cc; identity_name = λ n p g. cc; has_policy = λ n p g. cc } in
    let r =
      add_policies_lem ps [] policies [] identities d (λ j g. unfold lookup in refl) empty h in
    let has = r.has_policy id e l in
    (r.identity_name id e l, r.policy_name e.name e.policy has, has)
