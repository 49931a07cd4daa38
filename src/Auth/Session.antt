-- ===== src/Auth/Session.antt =====
-- The session cookie (internal/auth/auth.go, `setSession` and `session`).
use binnacle.Prelude.{
  ℕ, false, List, [], ◌∷◌, ◌++◌, Option, none, some, Text, text_eq, text_eq_sound, text_eq_refl,
  has_byte, cut, cut-append, cut_sound, ◌≡◌, refl, arith, ◌≢◌, ltb, ◌+◌, ◌*◌, ◌/◌, Bool-cases,
  Option-cases, inl, inr, sym, ap, join, split-join, has_byte-join, Free, ◌∙◌, if◌then◌else◌,
}
use binnacle.Prelude.Int.{ℤ, pos}
use binnacle.Auth.{
  Env, Identity, set_session, session, check_parts, four_parts, payload, groups_of, expired,
  session_ttl, second, bar,
}

append_assoc : (s t u : Text) → (s ++ t) ++ u ≡ s ++ (t ++ u)
append_assoc [] t u = refl
append_assoc (c ∷ s) t u = ap (λ t. c ∷ t) (append_assoc s t u)

payload-append :
    (a b c d : Text) → payload a b c ++ bar ∷ d ≡ a ++ bar ∷ (b ++ bar ∷ (c ++ bar ∷ d))
payload-append a b c d =
    append_assoc a (bar ∷ (b ++ bar ∷ c)) (bar ∷ d)
    ∙ ap (λ t. a ++ bar ∷ t) (append_assoc b (bar ∷ c) (bar ∷ d))

four_parts-payload :
    (a b c d : Text)
    → has_byte a bar ≡ false
    → has_byte b bar ≡ false
    → has_byte c bar ≡ false
    → four_parts (payload a b c ++ bar ∷ d) ≡ some (a, b, c, d)
unfolding four_parts
four_parts-payload a b c d ha hb hc =
    let e1 = cut-append a (b ++ bar ∷ (c ++ bar ∷ d)) bar ha in
    let e2 = cut-append b (c ++ bar ∷ d) bar hb in
    let e3 = cut-append c d bar hc in rw (payload-append a b c d) (ground (arith, e1, e2, e3))

four_parts_sound :
    (s a b c d : Text) → four_parts s ≡ some (a, b, c, d) → s ≡ payload a b c ++ bar ∷ d
unfolding four_parts
four_parts_sound s a b c d h = elim (Option-cases (cut s bar)) [
  | inl e ↦ absurd (ground (arith, e))
  | inr ((a', r), e) ↦ elim (Option-cases (cut r bar)) [
    | inl f ↦ absurd (ground (arith, e, f))
    | inr ((b', r'), f) ↦ elim (Option-cases (cut r' bar)) [
      | inl g ↦ absurd (ground (arith, e, f, g))
      | inr ((c', d'), g) ↦
          let (x, _) = cut_sound s bar a' r e in
          let (y, _) = cut_sound r bar b' r' f in
          let (z, _) = cut_sound r' bar c' d' g in
          let k : (a' ≡ a) × (b' ≡ b) × (c' ≡ c) × (d' ≡ d) = ground (arith, e, f, g) in
          let all : s ≡ a' ++ bar ∷ (b' ++ bar ∷ (c' ++ bar ∷ d')) =
            x ∙ ap (λ t. a' ++ bar ∷ t) (y ∙ ap (λ t. b' ++ bar ∷ t) z) in
          rw (payload-append a b c d) (ground (arith, k, all))
    ]
  ]
]

-- The groups that a cookie keeps apart: none of them has a comma or a bar, and a single group is not
-- empty.
abbrev pub IsKept : List Text → Type 0
IsKept gs = (gs ≢ [] ∷ []) × Free b',' gs × Free bar gs

groups_of-join : (gs : List Text) → IsKept gs → groups_of (join gs b',') ≡ gs
unfolding join
groups_of-join [] h = refl
groups_of-join ([] ∷ []) h = absurd (h.0 refl)
groups_of-join ((c ∷ g) ∷ []) h = split-join (c ∷ g) [] b',' h.1
groups_of-join ([] ∷ t ∷ l) h = split-join [] (t ∷ l) b',' h.1
groups_of-join ((c ∷ g) ∷ t ∷ l) h = split-join (c ∷ g) (t ∷ l) b',' h.1

bar-join : (gs : List Text) → IsKept gs → has_byte (join gs b',') bar ≡ false
bar-join gs h = has_byte-join gs b',' bar (ground arith) h.2

-- What the packages promise of the number in the cookie: decimal digits without a bar, read back.
abbrev pub PrintsInts : Env → Type 0
PrintsInts env =
    (n : ℕ)
    → (env.parse_int (env.format_int (pos n)) ≡ some (pos n))
      × (has_byte (env.format_int (pos n)) bar ≡ false)

session-parts :
    (env : Env) (now : ℕ) (value decoded a b c d : Text)
    → env.decode value ≡ some decoded
    → four_parts decoded ≡ some (a, b, c, d)
    → session env now (some value) ≡ check_parts env now a b c d
unfolding session
session-parts env now value decoded a b c d e f = ground (arith, e, f)

check_parts-signed :
    (env : Env) (now : ℕ) (who csv expiry : Text) (unix : ℤ)
    → env.parse_int expiry ≡ some unix
    → check_parts env now who csv expiry (env.sign (payload who csv expiry))
      ≡ (if expired now unix then none else some (record { who = who; groups = groups_of csv }))
unfolding check_parts
check_parts-signed env now who csv expiry unix e =
    let same = text_eq_refl (env.sign (payload who csv expiry)) in ground (arith, e, same)

check_parts_sound :
    (env : Env) (now : ℕ) (who csv expiry sig : Text) (id : Identity)
    → check_parts env now who csv expiry sig ≡ some id
    → (sig ≡ env.sign (payload who csv expiry))
      × ((unix : ℤ) × (env.parse_int expiry ≡ some unix) × (expired now unix ≡ false))
      × (id.who ≡ who)
      × (id.groups ≡ groups_of csv)
unfolding check_parts
check_parts_sound env now who csv expiry sig id h =
    elim (Bool-cases (text_eq sig (env.sign (payload who csv expiry)))) [
      | inr e ↦ absurd (ground (arith, e))
      | inl e ↦ elim (Option-cases (env.parse_int expiry)) [
        | inl f ↦ absurd (ground (arith, e, f))
        | inr (unix, f) ↦ elim (Bool-cases (expired now unix)) [
          | inl g ↦ absurd (ground (arith, e, f, g))
          | inr g ↦
              let same : id ≡ record { who = who; groups = groups_of csv } =
                ground (arith, e, f, g) in
              (text_eq_sound _ _ e, (unix, f, g), ap (λ i. i.who) same, ap (λ i. i.groups) same)
        ]
      ]
    ]

-- Where base64 decodes what it encoded and printed numbers have no bar and are read back: the cookie
-- written at `now` for a user name without a bar, and groups without bars and commas of which no lone
-- one is empty, is read at `now'` as the same name and groups, as long as `now'` is not past the second of
-- its expiry, and as nothing after that.
pub set_session-session :
    (env : Env)
    → ((s : Text) → env.decode (env.encode s) ≡ some s)
    → PrintsInts env
    → (now now' : ℕ) (who : Text) (groups : List Text) → has_byte who bar ≡ false
    → IsKept groups
    → session env now' (some (set_session env now who groups)) ≡ (
        if ltb ((now + session_ttl) / second * second) now'
        then none
        else some (record { who = who; groups = groups }))
unfolding set_session
set_session-session env dec ints now now' who groups hw hg =
    let csv = join groups b',' in
    let stamp = (now + session_ttl) / second in
    let exp = env.format_int (pos stamp) in
    let sig = env.sign (payload who csv exp) in
    let parts = four_parts-payload who csv exp sig hw (bar-join groups hg) (ints stamp).1 in
    let all =
      session-parts env now' (env.encode (payload who csv exp ++ bar ∷ sig))
        (payload who csv exp ++ bar ∷ sig) who csv exp sig (dec (payload who csv exp ++ bar ∷ sig))
        parts in
    all
    ∙ (check_parts-signed env now' who csv exp (pos stamp) (ints stamp).0
        ∙ ap
            (λ g.
              if ltb (stamp * second) now' then none else some (record { who = who; groups = g }))
            (groups_of-join groups hg))

-- What a cookie must have been for `session` to accept it.
abbrev pub Signed : Env → ℕ → Option Text → Identity → Type 0
Signed env now cookie id =
    (value : Text) × (csv : Text) × (expiry : Text) × (unix : ℤ) × (cookie ≡ some value)
    × (env.decode value
        ≡ some (payload id.who csv expiry ++ bar ∷ env.sign (payload id.who csv expiry)))
    × (env.parse_int expiry ≡ some unix)
    × (expired now unix ≡ false)
    × (id.groups ≡ groups_of csv)

-- A cookie that is accepted decodes to a name, groups and an expiry with their own signature, the
-- expiry is a number that has not passed, and the identity has that name and those groups.
pub session_sound :
    (env : Env) (now : ℕ) (cookie : Option Text) (id : Identity)
    → session env now cookie ≡ some id
    → Signed env now cookie id
unfolding session
session_sound env now none id h = absurd (ground arith)
session_sound env now (some value) id h = elim (Option-cases (env.decode value)) [
  | inl e ↦ absurd (ground (arith, e))
  | inr (decoded, e) ↦ elim (Option-cases (four_parts decoded)) [
    | inl f ↦ absurd (ground (arith, e, f))
    | inr ((a, b, c, d), f) ↦
        let checked = sym (session-parts env now value decoded a b c d e f) ∙ h in
        let (sig, (unix, g, live), w, gs) = check_parts_sound env now a b c d id checked in
        let whole : decoded ≡ payload a b c ++ bar ∷ env.sign (payload a b c) =
          four_parts_sound decoded a b c d f ∙ ap (λ t. payload a b c ++ bar ∷ t) sig in
        (
          value,
          b,
          c,
          unix,
          refl,
          e ∙ ap some (whole ∙ ap (λ t. payload t b c ++ bar ∷ env.sign (payload t b c)) (sym w)),
          g,
          live,
          gs,
        )
  ]
]
