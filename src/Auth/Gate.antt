-- ===== src/Auth/Gate.antt =====
-- The gate in front of every page (internal/auth/auth.go, `Middleware`, and bearer.go) and the guard of
-- the listener (`RequireOIDCOffLoopback`).
use binnacle.Prelude.{
  ℕ, Bool, true, false, ◌||◌, List, [], ◌∷◌, ◌++◌, none, some, Text, text, text_eq, is_empty, ◌≡◌,
  refl, arith, Bool-cases, Option-cases, inl, inr, sym, In, subst, ◌⊎◌, text_eq_sound, text_eq_iff,
  ◌↔◌,
}
use binnacle.Auth.{
  Env, Identity, Token, OidcConfig, identity_from, verify_bearer, audiences, bearer_token, session,
  Request, Response, middleware, is_navigation, safe_next, serve, unauthorized, redirect,
  require_oidc_off_loopback,
}
use binnacle.Auth.Session.{Signed, session_sound}
use binnacle.Auth.Redirect.{IsRooted, safe_next-IsRooted}

-- A token that verifies for one of the audiences, and the identity that is read from it.
abbrev pub Verified : Env → List Text → Text → Identity → Type 0
Verified env auds raw id =
    (aud : Text) × (t : Token) × In aud auds
    × (env.verify aud raw ≡ some t)
    × (id ≡ identity_from t)

verify_bearer_sound :
    (env : Env) (auds : List Text) (raw : Text) (id : Identity)
    → verify_bearer env auds raw ≡ some id
    → Verified env auds raw id
unfolding verify_bearer
verify_bearer_sound env [] raw id h = absurd (ground arith)
verify_bearer_sound env (aud ∷ auds) raw id h = elim (Option-cases (env.verify aud raw)) [
  | inr (t, e) ↦ (aud, t, inl refl, e, ground (arith, e))
  | inl e ↦
      let rest : verify_bearer env auds raw ≡ some id = ground (arith, e) in
      let (a, t, i, f, g) = verify_bearer_sound env auds raw id rest in (a, t, inr i, f, g)
]

-- What each answer of the gate vouches for.
abbrev pub Vouched : Env → OidcConfig → ℕ → Request → Response → Type 0
Vouched env cfg now r (serve id) =
    ((raw : Text) × (bearer_token env r.authorization ≡ some raw)
      × Verified env (audiences cfg) raw id)
    ⊎ ((bearer_token env r.authorization ≡ none) × Signed env now r.session_cookie id)
Vouched env cfg now r unauthorized =
    ((raw : Text) × (bearer_token env r.authorization ≡ some raw)
      × (verify_bearer env (audiences cfg) raw ≡ none))
    ⊎ ((bearer_token env r.authorization ≡ none)
        × (session env now r.session_cookie ≡ none)
        × (is_navigation env r.path r.accept ≡ false))
Vouched env cfg now r (redirect target) =
    (bearer_token env r.authorization ≡ none)
    × (session env now r.session_cookie ≡ none)
    × (is_navigation env r.path r.accept ≡ true)
    × ((next : Text) × (target ≡ text "/auth/login?next=" ++ next) × IsRooted next)

middleware_eq :
    (env : Env) (cfg : OidcConfig) (now : ℕ) (r : Request) (answer : Response)
    → middleware env cfg now r ≡ answer
    → Vouched env cfg now r answer
    → Vouched env cfg now r (middleware env cfg now r)
middleware_eq env cfg now r answer e v = subst (Vouched env cfg now r) (sym e) v

-- Whatever the request: who is served has a bearer token that verifies for one of the audiences, or
-- sent none and has a cookie that was signed over its contents and has not expired. A request is
-- refused only for a token that does not verify, or without token and session if it is no navigation.
-- It is redirected only as a navigation without either, to the login with a path from the root.
pub middleware-Vouched :
    (env : Env) (cfg : OidcConfig) (now : ℕ) (r : Request)
    → Vouched env cfg now r (middleware env cfg now r)
unfolding middleware
middleware-Vouched env cfg now r = elim (Option-cases (bearer_token env r.authorization)) [
  | inr (raw, e) ↦ elim (Option-cases (verify_bearer env (audiences cfg) raw)) [
    | inl f ↦ middleware_eq env cfg now r unauthorized (ground (arith, e, f)) (inl (raw, e, f))
    | inr (id, f) ↦
        middleware_eq env cfg now r (serve id) (ground (arith, e, f))
          (inl (raw, e, verify_bearer_sound env (audiences cfg) raw id f))
  ]
  | inl e ↦ elim (Option-cases (session env now r.session_cookie)) [
    | inr (id, f) ↦
        middleware_eq env cfg now r (serve id) (ground (arith, e, f))
          (inr (e, session_sound env now r.session_cookie id f))
    | inl f ↦ elim (Bool-cases (is_navigation env r.path r.accept)) [
      | inl g ↦
          middleware_eq env cfg now r (redirect (text "/auth/login?next=" ++ safe_next r.uri))
            (ground (arith, e, f, g)) (e, f, g, (safe_next r.uri, refl, safe_next-IsRooted r.uri))
      | inr g ↦ middleware_eq env cfg now r unauthorized (ground (arith, e, f, g)) (inr (e, f, g))
    ]
  ]
]

-- The hosts that are this machine: a loopback address or one of four names for it.
abbrev pub IsLoopback : Env → Text → Type 0
IsLoopback env host =
    (In host (text "localhost" ∷ text "127.0.0.1" ∷ text "::1" ∷ text "[::1]" ∷ []))
    ⊎ ((is_empty host ≡ false) × (env.is_loopback_ip host ≡ true))

loopback-none :
    (env : Env) (addr host : Text)
    → env.split_host_port addr ≡ some host
    → IsLoopback env host
    → require_oidc_off_loopback env addr false false ≡ none
unfolding require_oidc_off_loopback
loopback-none env addr host e (inl (inl f)) = let g = (text_eq_iff _ _).1 f in ground (arith, e, g)
loopback-none env addr host e (inl (inr (inl f))) =
    let g = (text_eq_iff _ _).1 f in ground (arith, e, g)
loopback-none env addr host e (inl (inr (inr (inl f)))) =
    let g = (text_eq_iff _ _).1 f in ground (arith, e, g)
loopback-none env addr host e (inl (inr (inr (inr (inl f))))) =
    let g = (text_eq_iff _ _).1 f in ground (arith, e, g)
loopback-none env addr host e (inl (inr (inr (inr (inr i))))) = elim i [ ]
loopback-none env addr host e (inr (f, g)) = ground (arith, e, f, g)

none-IsLoopback :
    (env : Env) (addr : Text)
    → require_oidc_off_loopback env addr false false ≡ none
    → (host : Text) × (env.split_host_port addr ≡ some host) × IsLoopback env host
unfolding require_oidc_off_loopback
none-IsLoopback env addr h = elim (Option-cases (env.split_host_port addr)) [
  | inl e ↦ absurd (ground (arith, e))
  | inr (host, e) ↦ elim (Bool-cases (text_eq host (text "localhost"))) [
    | inl f ↦ (host, e, inl (inl (text_eq_sound _ _ f)))
    | inr f1 ↦ elim (Bool-cases (text_eq host (text "127.0.0.1"))) [
      | inl f ↦ (host, e, inl (inr (inl (text_eq_sound _ _ f))))
      | inr f2 ↦ elim (Bool-cases (text_eq host (text "::1"))) [
        | inl f ↦ (host, e, inl (inr (inr (inl (text_eq_sound _ _ f)))))
        | inr f3 ↦ elim (Bool-cases (text_eq host (text "[::1]"))) [
          | inl f ↦ (host, e, inl (inr (inr (inr (inl (text_eq_sound _ _ f))))))
          | inr f4 ↦ (host, e, inr (ground (arith, e, f1, f2, f3, f4)))
        ]
      ]
    ]
  ]
]

-- The guard lets the server start exactly when somebody authenticates, the risk is accepted, or the
-- address has a host that is one of four names of this machine or a non-empty loopback address.
pub require_oidc_iff :
    (env : Env) (addr : Text) (authenticated allow_unauthenticated : Bool)
    → (require_oidc_off_loopback env addr authenticated allow_unauthenticated ≡ none)
      ↔ ((authenticated || allow_unauthenticated) ≡ true)
        ⊎ ((host : Text) × (env.split_host_port addr ≡ some host) × IsLoopback env host)
unfolding require_oidc_off_loopback
require_oidc_iff env addr true allow = ((λ e. inl refl), λ e. refl)
require_oidc_iff env addr false true = ((λ e. inl refl), λ e. refl)
require_oidc_iff env addr false false = (
  (λ e. inr (none-IsLoopback env addr e)),
  λ x. elim x [
    | inl e ↦ absurd (ground arith)
    | inr (host, e, l) ↦ loopback-none env addr host e l
  ],
)
