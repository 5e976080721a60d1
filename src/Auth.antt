-- ===== src/Auth.antt =====
-- internal/auth/apikey.go: the keys of clients and the tokens of workers, and the middleware that reads the
-- key out of the headers of a request.
pub mod Tokens
use text.Mathlib.Text.{starts_with}
use chronos_dev.Common.{
  not, String, Bool, true, false, List, [], ◌∷◌, Option, none, some, ◌==◌, if◌then◌else◌, Map,
  lookup, insert,
}

pub record Authenticator : Type 0 where
  pub api_keys : Map (Unit {0})
  pub worker_tokens : Map (Unit {0})
  pub disabled : Bool

-- The loop that puts the texts that are not empty into a set.
unfoldable pub add_all : List String → Map (Unit {0}) → Map (Unit {0})
add_all [] m = m
add_all (k ∷ ks) m = add_all ks (if k == "" then m else insert k tt m)

unfoldable pub new_authenticator : List String → List String → Bool → Authenticator
new_authenticator api_keys worker_tokens disabled = record {
  api_keys = add_all api_keys [];
  worker_tokens = add_all worker_tokens [];
  disabled = disabled;
}

abbrev pub is_present : Option (Unit {0}) → Bool
is_present none = false
is_present (some u) = true

unfoldable pub valid_api_key : Authenticator → String → Bool
valid_api_key a key = if a.disabled then true else is_present (lookup key a.api_keys)

unfoldable pub valid_worker_token : Authenticator → String → Bool
valid_worker_token a token = if a.disabled then true else is_present (lookup token a.worker_tokens)

-- The two headers that are read, where a missing one is empty.
pub record Headers : Type 0 where
  pub api_key : String
  pub authorization : String

-- strings.ToLower, strings.TrimSpace, and the bytes of a text after its first seven.
pub record Texts : Type 0 where
  pub lower : String → String
  pub trim : String → String
  pub after_seven : String → String

unfoldable pub authorization_key : Texts → String → String
authorization_key texts authz =
    if starts_with (texts.lower authz) "apikey " then texts.trim (texts.after_seven authz) else ""

unfoldable pub request_key : Texts → Headers → String
request_key texts h = if h.api_key == "" then authorization_key texts h.authorization else h.api_key

-- The next handler's answer, or that of a request that is not let through.
unfoldable pub http_middleware {ℓ} : {A : Type ℓ} → Authenticator → Texts → Headers → A → A → A
http_middleware a texts h next unauthorized =
    if a.disabled
    then next
    else if not (valid_api_key a (request_key texts h))
    then unauthorized
    else next
