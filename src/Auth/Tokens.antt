-- ===== src/Auth/Tokens.antt =====
-- Which keys and tokens are accepted.
use chronos_dev.Common.{
  String, Bool, true, false, not, ◌&&◌, ◌||◌, List, [], ◌∷◌, ◌==◌, if◌then◌else◌, eq_iff, ◌≡◌, refl,
  Map, lookup, insert, lookup-insert, arith, Bool-cases, inl, inr,
}
use chronos_dev.Auth.{
  add_all, new_authenticator, is_present, valid_api_key, valid_worker_token, Texts, Headers,
  request_key, http_middleware,
}

-- A text is in a list.
unfoldable pub is_among : String → List String → Bool
is_among x [] = false
is_among x (y ∷ ys) = x == y || is_among x ys

present-add_all :
    (x : String) (ks : List String) (m : Map (Unit {0}))
    → is_present (lookup x (add_all ks m))
      ≡ (is_present (lookup x m) || (not (x == "") && is_among x ks))
unfolding add_all is_among
present-add_all x [] m = ground arith
present-add_all x (k ∷ ks) m = elim (Bool-cases (k == "")) [
  | inl e ↦ rw e (ground (arith, e, eq_iff k "", eq_iff x "", eq_iff x k, present-add_all x ks m))
  | inr e ↦ rw e (
      ground (
        arith,
        e,
        eq_iff k "",
        eq_iff x "",
        eq_iff x k,
        eq_iff k x,
        lookup-insert k x tt m,
        present-add_all x ks (insert k tt m),
      ))
]

-- A key of a client, and a token of a worker, is accepted exactly if checks are disabled, or it is not
-- empty and is one of those configured.
pub accepted_exact :
    (api_keys worker_tokens : List String) (disabled : Bool) (x : String)
    → let a = new_authenticator api_keys worker_tokens disabled in
      (valid_api_key a x ≡ (disabled || (not (x == "") && is_among x api_keys)))
      × (valid_worker_token a x ≡ (disabled || (not (x == "") && is_among x worker_tokens)))
unfolding new_authenticator valid_api_key valid_worker_token lookup
accepted_exact api_keys worker_tokens true x = (refl, refl)
accepted_exact api_keys worker_tokens false x =
    (present-add_all x api_keys [], present-add_all x worker_tokens [])

-- A request is let through exactly if checks are disabled, or its key is not empty and is one of those
-- configured; the key is that of the API key's header, if it has one.
pub http_middleware-exact {ℓ} :
    {A : Type ℓ} (api_keys worker_tokens : List String) (disabled : Bool) (texts : Texts)
    (h : Headers) (next unauthorized : A)
    → http_middleware (new_authenticator api_keys worker_tokens disabled) texts h next unauthorized
      ≡ (if disabled || (not (request_key texts h == "") && is_among (request_key texts h) api_keys)
          then next
          else unauthorized)
unfolding http_middleware new_authenticator
http_middleware-exact api_keys worker_tokens true texts h next unauthorized = refl
http_middleware-exact api_keys worker_tokens false texts h next unauthorized =
    let key = request_key texts h in
    let exact = (accepted_exact api_keys worker_tokens false key).0 in
    elim (Bool-cases (not (key == "") && is_among key api_keys)) [
      | inl e ↦ rw (exact, e) refl
      | inr e ↦ rw (exact, e) refl
    ]
