-- ===== src/Examples/Auth.antt =====
-- internal/auth at concrete inputs. The packages are stood in for by functions with the behaviour that
-- they document: a number is printed in as many digits as it counts, and encoding changes nothing.
use binnacle.Prelude.{
  ℕ, zero, suc, true, false, ◌||◌, List, [], ◌∷◌, none, some, Text, text, has_byte, text_eq, cut,
  split, cut_prefix, replicate, length, ◌≡◌, refl, ap, arith, ltb, ◌+◌, ◌*◌, ◌/◌, if◌then◌else◌,
  ◌⊎◌, ◌↔◌,
}
use binnacle.Prelude.Int.{ℤ, pos, negsuc}
use binnacle.Auth.{
  Env, Identity, Token, OidcConfig, Request, set_session, session, session_ttl, second, bar,
  middleware, login_state, handle_callback, signed_in, safe_next, require_oidc_off_loopback,
  identity_from, four_parts, check_parts,
}
use binnacle.Auth.Session.{set_session-session, session_sound, PrintsInts, IsKept, Signed}
use binnacle.Auth.Redirect.{login-target, Exchanged, IsRooted}
use binnacle.Auth.Gate.{middleware-Vouched, Vouched, require_oidc_iff, IsLoopback}

abbrev alice_token : Token
alice_token = record {
  email = text "alice@example.org";
  preferred_username = [];
  subject = text "1";
  groups = text "ops" ∷ [];
}

abbrev print : ℤ → Text
print (pos n) = replicate n b'0'
print (negsuc n) = text "-"

abbrev env : Env
env = record {
  sign = λ s. b's' ∷ [];
  encode = λ s. s;
  decode = λ s. some s;
  format_int = print;
  parse_int = λ s. some (pos (length s));
  split_host_port = λ s. some s;
  is_loopback_ip = λ s. false;
  trim_space = λ s. s;
  verify = λ aud raw. some alice_token;
}

length-replicate : (n b : ℕ) → length (replicate n b) ≡ n
length-replicate zero b = refl
length-replicate (suc n) b = ap suc (length-replicate n b)

has_byte-zeros : (n : ℕ) → has_byte (replicate n b'0') bar ≡ false
unfolding has_byte
has_byte-zeros zero = refl
has_byte-zeros (suc n) = ground (arith, has_byte-zeros n)

env-PrintsInts : PrintsInts env
env-PrintsInts n = (ap (λ k. some (pos k)) (length-replicate n b'0'), has_byte-zeros n)

abbrev ops : List Text
ops = text "ops" ∷ text "dev" ∷ []

ops-IsKept : IsKept ops
unfolding has_byte
ops-IsKept = ((λ e. absurd (ground (arith, e))), (refl, (refl, tt)), (refl, (refl, tt)))

alice_free : has_byte (text "alice") bar ≡ false
unfolding has_byte
alice_free = refl

set_session-session_example : session env 5 (some (set_session env 0 (text "alice") ops)) ≡ (
    if ltb ((0 + session_ttl) / second * second) 5
    then none
    else some (record { who = text "alice"; groups = ops }))
set_session-session_example =
    set_session-session env (λ s. refl) env-PrintsInts 0 5 (text "alice") ops alice_free ops-IsKept

abbrev cookie : Text
cookie = text "alice|ops|00|s"

abbrev alice : Identity
alice = record { who = text "alice"; groups = text "ops" ∷ [] }

cookie-accepted : session env 5 (some cookie) ≡ some alice
unfolding session four_parts check_parts text_eq cut split
cookie-accepted = refl

session_sound_example : Signed env 5 (some cookie) alice
session_sound_example = session_sound env 5 (some cookie) alice cookie-accepted

abbrev signed_in_as : Identity
signed_in_as = record { who = text "alice@example.org"; groups = text "ops" ∷ [] }

callback :
    handle_callback
      (λ code. some (some code))
      (λ raw. some alice_token)
      (some (login_state (text "n") (text "//evil")))
      (text "n:/")
      (text "code")
    ≡ signed_in signed_in_as (text "/")
unfolding handle_callback login_state safe_next text_eq cut cut_prefix identity_from
callback = refl

nonce_free : has_byte (text "n") b':' ≡ false
unfolding has_byte
nonce_free = refl

login-target_example :
    (text "n:/" ≡ login_state (text "n") (text "//evil"))
    × Exchanged (λ code. some (some code)) (λ raw. some alice_token) (text "code") signed_in_as
    × (text "/" ≡ safe_next (text "//evil"))
    × IsRooted (text "/")
login-target_example =
    login-target (λ code. some (some code)) (λ raw. some alice_token) (text "n") (text "//evil")
      (text "n:/") (text "code") signed_in_as (text "/") nonce_free callback

abbrev config : OidcConfig
config = record {
  issuer = text "https://idp";
  client_id = text "binnacle";
  cli_client_id = [];
  redirect_url = [];
  scopes = [];
  cli_scopes = [];
  session_key = [];
}

abbrev request : Request
request = record {
  path = text "/";
  uri = text "/fleet";
  accept = text "text/html";
  authorization = text "Bearer abc";
  session_cookie = some cookie;
}

middleware-Vouched_example : Vouched env config 5 request (middleware env config 5 request)
middleware-Vouched_example = middleware-Vouched env config 5 request

require_oidc_iff_example :
    (require_oidc_off_loopback env (text "localhost") false false ≡ none)
    ↔ ((false || false) ≡ true)
      ⊎ ((host : Text) × (some (text "localhost") ≡ some host) × IsLoopback env host)
require_oidc_iff_example = require_oidc_iff env (text "localhost") false false
