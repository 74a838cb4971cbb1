-- ===== src/Server/Table/Configured.antt =====
-- What a configuration can change in the table of initRoutes of state.go.
use mathlib.Core.Path.{subst}
use kes.Prelude.{
  ◌≡◌, refl, sym, ◌∙◌, inl, inr, Bool, true, false, ◌&&◌, ◌||◌, Option, none, some, [], ◌∷◌, every,
  if◌then◌else◌, ℤ, Text, text_eq, text_beq, text_beq_iff, arith, Option-cases, Bool-cases, ◌&&◌,
  ◌||◌, ℤ, Bool, true, false, Bool-cases,
}
use mathlib.Core.Option
use kes.Prelude.Maps.{Assoc, lookup, Distinct, lookup-put}
use kes.Server.Config.{RouteConfig}
use kes.Server.Table.{
  Authenticator, verify_identity, TableRoute, default_routes, version_path, self_describe_path,
  customize, customize_path, apply_config, init_routes,
}

-- The route with the changes that the configuration has for its path.
abbrev pub configured : Option RouteConfig → TableRoute → TableRoute
configured none route = route
configured (some conf) route = customize conf route

customize_path-lookup :
    (path j : Text) (conf : RouteConfig) (routes : Assoc Text TableRoute)
    → lookup j (customize_path path conf (lookup path routes) routes)
      ≡ (if text_beq path j then Option.map (customize conf) (lookup j routes) else lookup j routes)
customize_path-lookup path j conf routes = elim (Option-cases (lookup path routes)) [
  | inl h ↦ ground (arith, text_beq_iff path j)
  | inr (r, h) ↦ ground (arith, text_beq_iff path j, lookup-put path j (customize conf r) routes)
]

pub apply_config-lookup :
    (config : Assoc Text RouteConfig) (routes : Assoc Text TableRoute) (path : Text)
    → Distinct config
    → lookup path (apply_config config routes)
      ≡ Option.map (configured (lookup path config)) (lookup path routes)
unfolding apply_config lookup
apply_config-lookup [] routes path d = ground arith
apply_config-lookup ((p, conf) ∷ more) routes path d =
    let changed = customize_path p conf (lookup p routes) routes in
    ground (
      arith,
      text_beq_iff p path,
      apply_config-lookup more changed path d.1,
      customize_path-lookup p path conf routes,
    )

-- The table holds, for each path that the server has, the route of the default table with the changes
-- that the configuration has for that path, and nothing else.
pub init_routes-lookup :
    (mb : ℤ) (config : Assoc Text RouteConfig) (path : Text)
    → Distinct config
    → lookup path (init_routes mb config)
      ≡ Option.map (configured (lookup path config)) (lookup path (default_routes mb))
unfolding init_routes
init_routes-lookup mb config path d = apply_config-lookup config (default_routes mb) path d

abbrev pub is_verify : Authenticator → Bool
is_verify verify_identity = true
is_verify a = false

-- The route stands under its own path, and it checks the client but for two paths.
abbrev pub guarded : Text × TableRoute → Bool
guarded (path, r) =
    text_beq r.path path
    && (is_verify r.auth || (text_beq path version_path || text_beq path self_describe_path))

every-lookup :
    {X : Type 0} (test : Text × X → Bool) (m : Assoc Text X) (path : Text) (x : X)
    → every test m ≡ true
    → lookup path m ≡ some x
    → test (path, x) ≡ true
unfolding lookup
every-lookup test [] path x h g = absurd (ground arith)
every-lookup {X} test ((p, w) ∷ m) path x h g = elim (Bool-cases (text_beq p path)) [
  | inl t ↦
      let here : w ≡ x = ground arith in
      let tested : test (p, w) ≡ true = ground arith in
      subst (λ (j : Text). test (j, x) ≡ true) ((text_beq_iff p path).0 t)
        (subst (λ (y : X). test (p, y) ≡ true) here tested)
  | inr t ↦ every-lookup test m path x (ground arith) (ground arith)
]

default_routes-guarded : (mb : ℤ) → every guarded (default_routes mb) ≡ true
default_routes-guarded mb = refl

abbrev pub skips : Option RouteConfig → Bool
skips none = false
skips (some conf) = conf.insecure_skip_auth

-- Every route stands under its own path, and requests reach its handler without a check of the
-- client's policy only for the version, the self-description, and the paths for which the
-- configuration sets InsecureSkipAuth.
pub init_routes-guarded :
    (mb : ℤ) (config : Assoc Text RouteConfig) (path : Text) (r : TableRoute)
    → Distinct config
    → lookup path (init_routes mb config) ≡ some r
    → (text_beq r.path path ≡ true)
      × ((is_verify r.auth
            || (text_beq path version_path
                || (text_beq path self_describe_path || skips (lookup path config))))
          ≡ true)
init_routes-guarded mb config path r d h =
    let found = sym (init_routes-lookup mb config path d) ∙ h in
    elim (Option-cases (lookup path (default_routes mb))) [
      | inl n ↦ absurd (ground arith)
      | inr (r', m) ↦
          let safe =
            every-lookup guarded (default_routes mb) path r' (default_routes-guarded mb) m in
          (ground arith, ground arith)
    ]
