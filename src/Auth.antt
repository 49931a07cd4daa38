-- ===== src/Auth.antt =====
-- internal/auth: who may see the fleet. auth.go has the guard of an unauthenticated listener, the flow
-- of a browser's login and the signed session cookie, bearer.go the tokens of a terminal client.
--
-- What stands for packages outside the repository is gathered in `Env`: the signature (HMAC over the
-- session key), base64, the numbers of `strconv`, `net.SplitHostPort` and the loopback test of
-- `net.ParseIP`, `strings.TrimSpace`, and the verification of a token for an audience. An instant is
-- a number of nanoseconds.
use binnacle.Prelude.{
  ◌⊎◌, inl, inr, ℕ, zero, suc, ◌+◌, ◌-◌, ◌*◌, ◌/◌, Bool, true, false, not, ◌&&◌, ◌||◌, List, [],
  ◌∷◌, ◌++◌, map, Option, none, some, Text, text, text_eq, has_prefix, cut, join, split,
  if◌then◌else◌, is_empty, some_of, ltb, leb, length,
}
use binnacle.Prelude.Int.{ℤ, pos, negsuc}
pub mod Session
pub mod Redirect
pub mod Gate

pub record Identity : Type 0 where
  pub who : Text
  pub groups : List Text

-- The claims that are read out of a verified token.
pub record Token : Type 0 where
  pub email : Text
  pub preferred_username : Text
  pub subject : Text
  pub groups : List Text

pub record Env : Type 0 where
  pub sign : Text → Text
  pub encode : Text → Text
  pub decode : Text → Option Text
  pub format_int : ℤ → Text
  pub parse_int : Text → Option ℤ
  pub split_host_port : Text → Option Text
  pub is_loopback_ip : Text → Bool
  pub trim_space : Text → Text
  pub verify : Text → Text → Option Token

pub data BindError : Type 0 where
  bad_address every_interface off_loopback : BindError

-- `none` is a nil error.
unfoldable pub require_oidc_off_loopback : Env → Text → Bool → Bool → Option BindError
require_oidc_off_loopback env addr authenticated allow_unauthenticated =
    if authenticated || allow_unauthenticated then none else elim (env.split_host_port addr) [
      | none ↦ some bad_address
      | some host ↦
          if text_eq host (text "localhost")
            || text_eq host (text "127.0.0.1")
            || text_eq host (text "::1")
            || text_eq host (text "[::1]")
          then none
          else if is_empty host
          then some every_interface
          else if env.is_loopback_ip host
          then none
          else some off_loopback
    ]

pub record OidcConfig : Type 0 where
  pub issuer : Text
  pub client_id : Text
  pub cli_client_id : Text
  pub redirect_url : Text
  pub scopes : List Text
  pub cli_scopes : List Text
  pub session_key : List ℕ

unfoldable pub cli_client_id : OidcConfig → Text
cli_client_id cfg = if not (is_empty cfg.cli_client_id) then cfg.cli_client_id else cfg.client_id

-- The audiences of the verifiers that `NewOIDC` builds.
unfoldable pub audiences : OidcConfig → List Text
audiences cfg =
    if not (is_empty cfg.cli_client_id) && not (text_eq cfg.cli_client_id cfg.client_id)
    then cfg.client_id ∷ cfg.cli_client_id ∷ []
    else cfg.client_id ∷ []

pub data ConfigError : Type 0 where
  no_issuer no_client_id no_redirect_url no_session_key not_discovered no_openid_scope : ConfigError

-- An authenticator: its configuration, the scopes it asks for and the audiences it verifies for.
pub record Oidc : Type 0 where
  pub cfg : OidcConfig
  pub scopes : List Text
  pub cli_scopes : List Text
  pub bearer_audiences : List Text

abbrev pub scopes_of : OidcConfig → List Text
scopes_of cfg =
    if is_empty cfg.scopes then text "openid" ∷ text "profile" ∷ text "email" ∷ [] else cfg.scopes

abbrev pub cli_scopes_of : OidcConfig → List Text
cli_scopes_of cfg = if is_empty cfg.cli_scopes then scopes_of cfg else cfg.cli_scopes

-- `NewOIDC`; `discovers` tells whether the provider of an issuer answers.
unfoldable pub new_oidc : (Text → Bool) → OidcConfig → ConfigError ⊎ Oidc
unfolding audiences
new_oidc discovers cfg =
    if is_empty cfg.issuer
    then inl no_issuer
    else if is_empty cfg.client_id
    then inl no_client_id
    else if is_empty cfg.redirect_url
    then inl no_redirect_url
    else if is_empty cfg.session_key
    then inl no_session_key
    else if not (discovers cfg.issuer)
    then inl not_discovered
    else if not (some_of (text_eq (text "openid")) (cli_scopes_of cfg))
    then inl no_openid_scope
    else inr (record {
      cfg = cfg;
      scopes = scopes_of cfg;
      cli_scopes = cli_scopes_of cfg;
      bearer_audiences = audiences cfg;
    })

-- `h[:len(scheme)]` and `h[len(scheme):]`, for a header that is longer than the scheme.
abbrev pub take_bytes : ℕ → Text → Text
take_bytes zero s = []
take_bytes (suc n) [] = []
take_bytes (suc n) (c ∷ s) = c ∷ take_bytes n s

abbrev pub drop_bytes : ℕ → Text → Text
drop_bytes zero s = s
drop_bytes (suc n) [] = []
drop_bytes (suc n) (c ∷ s) = drop_bytes n s

-- `strings.EqualFold` against a text in small ASCII letters: no other character folds to one of those
-- of "bearer ".
abbrev pub lower : ℕ → ℕ
lower c = if leb b'A' c && leb c b'Z' then c + 32 else c

unfoldable pub bearer_token : Env → Text → Option Text
bearer_token env h =
    if leb (length h) 7 || not (text_eq (map lower (take_bytes 7 h)) (text "bearer "))
    then none
    else let tok = env.trim_space (drop_bytes 7 h) in if is_empty tok then none else some tok

unfoldable pub identity_from : Token → Identity
identity_from t = record {
  who =
      if not (is_empty t.email)
      then t.email
      else if not (is_empty t.preferred_username)
      then t.preferred_username
      else t.subject;
  groups = t.groups;
}

-- The loop of `verifyBearer` over the audiences; `none` is its error.
unfoldable pub verify_bearer : Env → List Text → Text → Option Identity
unfolding identity_from
verify_bearer env [] raw = none
verify_bearer env (aud ∷ auds) raw =
    let rest = verify_bearer env auds raw in
    elim (env.verify aud raw) [ none ↦ rest | some t ↦ some (identity_from t) ]

-- `before, _, _ := strings.Cut(s, sep)`
abbrev pub before_byte : Text → ℕ → Text
before_byte s sep = elim (cut s sep) [ none ↦ s | some (before, after) ↦ before ]

unfoldable pub is_event_stream : Env → Text → Bool
is_event_stream env accepted =
    text_eq (env.trim_space (before_byte accepted b';')) (text "text/event-stream")

unfoldable pub is_navigation : Env → Text → Text → Bool
unfolding is_event_stream
is_navigation env path accept =
    if has_prefix path (text "/api/")
    then false
    else not (some_of (is_event_stream env) (split accept b','))

unfoldable pub safe_next : Text → Text
safe_next next =
    if is_empty next || not (has_prefix next (text "/")) || has_prefix next (text "//")
    then text "/"
    else next

-- Eight hours.
abbrev pub session_ttl : ℕ
session_ttl = 28800000000000

abbrev pub second : ℕ
second = 1000000000

abbrev pub bar : ℕ
bar = b'|'

-- `who + "|" + groupsCSV + "|" + expiry`
abbrev pub payload : Text → Text → Text → Text
payload who groups_csv expiry = who ++ bar ∷ (groups_csv ++ bar ∷ expiry)

-- The value of the cookie that `setSession` writes.
unfoldable pub set_session : Env → ℕ → Text → List Text → Text
set_session env now who groups =
    let signed =
      payload who (join groups b',') (env.format_int (pos ((now + session_ttl) / second))) in
    env.encode (signed ++ bar ∷ env.sign signed)

-- `strings.SplitN(s, "|", 4)` where it gives four parts.
unfoldable pub four_parts : Text → Option (Text × Text × Text × Text)
four_parts s = elim (cut s bar) [
  | none ↦ none
  | some (a, r) ↦ elim (cut r bar) [
    | none ↦ none
    | some (b, r') ↦ elim (cut r' bar) [ none ↦ none | some (c, d) ↦ some (a, b, c, d) ]
  ]
]

abbrev pub groups_of : Text → List Text
groups_of groups_csv = if not (is_empty groups_csv) then split groups_csv b',' else []

-- `time.Now().After(time.Unix(unix, 0))`: the second has passed.
abbrev pub expired : ℕ → ℤ → Bool
expired now (pos n) = ltb (n * second) now
expired now (negsuc n) = true

-- The checks of `session` on the four parts.
unfoldable pub check_parts : Env → ℕ → Text → Text → Text → Text → Option Identity
check_parts env now who groups_csv expiry sig =
    if not (text_eq sig (env.sign (payload who groups_csv expiry)))
    then none
    else elim (env.parse_int expiry) [
      | none ↦ none
      | some unix ↦
          if expired now unix
          then none
          else some (record { who = who; groups = groups_of groups_csv })
    ]

-- What `session` makes of the cookie's value, `none` where there is no cookie.
unfoldable pub session : Env → ℕ → Option Text → Option Identity
session env now none = none
session env now (some value) = elim (env.decode value) [
  | none ↦ none
  | some decoded ↦ elim (four_parts decoded) [
    | none ↦ none
    | some (who, groups_csv, expiry, sig) ↦ check_parts env now who groups_csv expiry sig
  ]
]

-- The parts of a request that are read.
pub record Request : Type 0 where
  pub path : Text
  pub uri : Text
  pub accept : Text
  pub authorization : Text
  pub session_cookie : Option Text

pub data Response : Type 0 where
  serve : Identity → Response
  unauthorized : Response
  redirect : Text → Response

unfoldable pub middleware : Env → OidcConfig → ℕ → Request → Response
middleware env cfg now r = elim (bearer_token env r.authorization) [
  | some raw ↦ elim (verify_bearer env (audiences cfg) raw) [
    | none ↦ unauthorized
    | some id ↦ serve id
  ]
  | none ↦ elim (session env now r.session_cookie) [
    | some id ↦ serve id
    | none ↦
        if not (is_navigation env r.path r.accept)
        then unauthorized
        else redirect (text "/auth/login?next=" ++ safe_next r.uri)
  ]
]

-- The state that `handleLogin` puts into the cookie and the query; the nonce is drawn at random.
unfoldable pub login_state : Text → Text → Text
unfolding safe_next
login_state nonce next = nonce ++ b':' ∷ safe_next next

pub data CallbackResult : Type 0 where
  login_expired state_mismatch exchange_failed no_id_token not_verified : CallbackResult
  signed_in : Identity → Text → CallbackResult

-- What follows the first colon of the state, if anything does.
abbrev pub after_or_root : Option (Text × Text) → Text
after_or_root none = text "/"
after_or_root (some (before, after)) = if is_empty after then text "/" else after

abbrev pub target_of : Text → Text
target_of state = after_or_root (cut state b':')

-- `handleCallback`: the state cookie, the state and code of the query, the provider's exchange of the
-- code for a raw ID token, if it carries one, and its verification.
unfoldable pub handle_callback :
    (Text → Option (Option Text))
    → (Text → Option Token)
    → Option Text
    → Text
    → Text
    → CallbackResult
handle_callback exchange verify none state code = login_expired
handle_callback exchange verify (some cookie) state code =
    if not (text_eq cookie state) then state_mismatch else elim (exchange code) [
      | none ↦ exchange_failed
      | some none ↦ no_id_token
      | some (some raw) ↦ elim (verify raw) [
        | none ↦ not_verified
        | some t ↦ signed_in (identity_from t) (target_of cookie)
      ]
    ]
