-- ===== src/Auth/Redirect.antt =====
-- Where a browser is sent after a login (internal/auth/auth.go, `safeNext`, `handleLogin` and
-- `handleCallback`).
use binnacle.Prelude.{
  true, false, not, ◌||◌, [], ◌∷◌, Option, none, some, Text, text, text_eq, text_eq_sound,
  has_prefix, has_byte, cut_prefix, cut-append, is_empty, ◌≡◌, refl, arith, Bool-cases,
  Option-cases, inl, inr, ◌∙◌, ap, if◌then◌else◌,
}
use binnacle.Auth.{
  Identity, Token, safe_next, login_state, handle_callback, identity_from, target_of, signed_in,
  after_or_root,
}

-- A target on this site: a path from the root that is not the start of `//host`.
abbrev pub IsRooted : Text → Type 0
IsRooted t = (has_prefix t (text "/") ≡ true) × (has_prefix t (text "//") ≡ false)

-- Whatever the query asks for, the target is rooted.
pub safe_next-IsRooted : (next : Text) → IsRooted (safe_next next)
unfolding safe_next cut_prefix
safe_next-IsRooted next =
    elim (Bool-cases
      (is_empty next || not (has_prefix next (text "/")) || has_prefix next (text "//"))) [
        | inl e ↦ ground arith
        | inr e ↦ ground arith
      ]

-- A rooted target is kept.
pub safe_next-keeps : (next : Text) → IsRooted next → safe_next next ≡ next
unfolding safe_next cut_prefix
safe_next-keeps [] h = absurd (ground arith)
safe_next-keeps (c ∷ next) h = ground arith

or_root : (t : Text) → IsRooted t → (if is_empty t then text "/" else t) ≡ t
unfolding cut_prefix
or_root [] h = absurd (ground arith)
or_root (c ∷ t) h = refl

target_of-state :
    (nonce next : Text)
    → has_byte nonce b':' ≡ false
    → target_of (login_state nonce next) ≡ safe_next next
unfolding login_state
target_of-state nonce next h =
    ap after_or_root (cut-append nonce (safe_next next) b':' h)
    ∙ or_root (safe_next next) (safe_next-IsRooted next)

abbrev pub Exchanged :
    (Text → Option (Option Text)) → (Text → Option Token) → Text → Identity → Type 0
Exchanged exchange verify code id =
    (raw : Text) × (t : Token) × (exchange code ≡ some (some raw))
    × (verify raw ≡ some t)
    × (id ≡ identity_from t)

pub handle_callback_sound :
    (exchange : Text → Option (Option Text)) (verify : Text → Option Token) (cookie : Option Text)
    (state code : Text) (id : Identity) (target : Text)
    → handle_callback exchange verify cookie state code ≡ signed_in id target
    → (cookie ≡ some state) × Exchanged exchange verify code id × (target ≡ target_of state)
unfolding handle_callback
handle_callback_sound exchange verify none state code id target h = absurd (ground arith)
handle_callback_sound exchange verify (some c) state code id target h =
    elim (Bool-cases (text_eq c state)) [
      | inr e ↦ absurd (ground (arith, e))
      | inl e ↦
          let same = text_eq_sound c state e in
          elim (Option-cases (exchange code)) [
            | inl f ↦ absurd (ground (arith, e, f))
            | inr (none, f) ↦ absurd (ground (arith, e, f))
            | inr (some raw, f) ↦ elim (Option-cases (verify raw)) [
              | inl g ↦ absurd (ground (arith, e, f, g))
              | inr (t, g) ↦ (
                ap some same,
                (raw, t, f, g, ground (arith, e, f, g)),
                ground (arith, e, f, g, same),
              )
            ]
          ]
    ]

-- A login that started with `next` and a nonce without a colon ends, if it ends, on the rooted path that
-- `safe_next` makes of it, with the cookie's state in the query, as the identity of a token that the
-- provider verified.
pub login-target :
    (exchange : Text → Option (Option Text)) (verify : Text → Option Token) (nonce next : Text)
    (state code : Text) (id : Identity) (target : Text)
    → has_byte nonce b':' ≡ false
    → handle_callback exchange verify (some (login_state nonce next)) state code
      ≡ signed_in id target
    → (state ≡ login_state nonce next)
      × Exchanged exchange verify code id
      × (target ≡ safe_next next)
      × IsRooted target
login-target exchange verify nonce next state code id target free h =
    let (e, x, t) =
      handle_callback_sound exchange verify (some (login_state nonce next)) state code id target
        h in
    let same : state ≡ login_state nonce next = ground (arith, e) in
    let there : target ≡ safe_next next =
      t ∙ (ap target_of same ∙ target_of-state nonce next free) in
    (same, x, there, rw there (safe_next-IsRooted next))
