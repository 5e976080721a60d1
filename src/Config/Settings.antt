-- ===== src/Config/Settings.antt =====
-- What the settings mean for the parts that take them.
use chronos_dev.Common.{
  String, Bool, false, not, ◌&&◌, ◌||◌, List, [], ◌∷◌, ◌==◌, eq_iff, ◌≡◌, ◌≢◌, refl, ◌∙◌, ap, arith,
  Bool-cases, inl, inr, ne_false,
}
use chronos_dev.Auth.{new_authenticator, valid_api_key, valid_worker_token}
use chronos_dev.Auth.Tokens.{is_among, accepted_exact}
use chronos_dev.Config.{Process, keep_filled, get_env, get_bool, split_csv, read_config, load}

-- A text is one of the pieces once they are trimmed.
unfoldable pub is_piece : (String → String) → String → List String → Bool
is_piece trim x [] = false
is_piece trim x (p ∷ ps) = trim p == x || is_piece trim x ps

among-keep_filled :
    (trim : String → String) (x : String) (ps : List String)
    → (not (x == "") && is_among x (keep_filled trim ps)) ≡ (not (x == "") && is_piece trim x ps)
unfolding is_among is_piece
among-keep_filled trim x [] = refl
among-keep_filled trim x (p ∷ ps) =
    let rest = among-keep_filled trim x ps in
    elim (Bool-cases (trim p == "")) [
      | inl e ↦ rw e (ground (arith, rest, e, eq_iff (trim p) "", eq_iff x "", eq_iff (trim p) x))
      | inr e ↦ rw e (ground (arith, rest, eq_iff x (trim p), eq_iff (trim p) x))
    ]

get_env-filled :
    (process : Process) (key default : String)
    → default ≢ ""
    → (get_env process key default == "") ≡ false
unfolding get_env
get_env-filled process key default h = elim (Bool-cases (process.getenv key == "")) [
  | inl e ↦ rw e (ne_false default "" h)
  | inr e ↦ rw (e, e) refl
]

among-split_csv :
    (process : Process) (key default x : String)
    → default ≢ ""
    → (not (x == "") && is_among x (split_csv process (get_env process key default)))
      ≡ (not (x == "") && is_piece process.trim x (process.split (get_env process key default)))
unfolding split_csv
among-split_csv process key default x h =
    rw (get_env-filled process key default h)
      (among-keep_filled process.trim x (process.split (get_env process key default)))

-- With the settings as they are loaded, a key of a client is accepted exactly if CHRONOS_AUTH_DISABLED says so,
-- or if it is not empty and is, up to white space, one of the pieces of CHRONOS_API_KEYS, and a token of a
-- worker likewise with CHRONOS_WORKER_TOKENS; a variable that is not set stands for its default.
pub load-accepted :
    (process : Process) (service x : String)
    → let auth = (load process service).auth in
      let a = new_authenticator auth.api_keys auth.worker_tokens auth.disabled in
      let disabled = get_bool process "CHRONOS_AUTH_DISABLED" false in
      let keys = process.split (get_env process "CHRONOS_API_KEYS" "dev-api-key-change-me") in
      let tokens =
        process.split (get_env process "CHRONOS_WORKER_TOKENS" "dev-worker-token-change-me") in
      (valid_api_key a x ≡ (disabled || (not (x == "") && is_piece process.trim x keys)))
      × (valid_worker_token a x ≡ (disabled || (not (x == "") && is_piece process.trim x tokens)))
unfolding load read_config
load-accepted process service x =
    let auth = (load process service).auth in
    let (on_key, on_token) = accepted_exact auth.api_keys auth.worker_tokens auth.disabled x in
    (
      on_key
          ∙ ap (λ b. auth.disabled || b)
              (among-split_csv process "CHRONOS_API_KEYS" "dev-api-key-change-me" x
                (λ e. absurd (cc))),
      on_token
          ∙ ap (λ b. auth.disabled || b)
              (among-split_csv process "CHRONOS_WORKER_TOKENS" "dev-worker-token-change-me" x
                (λ e. absurd (cc))),
    )
