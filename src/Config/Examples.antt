-- ===== src/Config/Examples.antt =====
-- Settings with two keys for clients.
use chronos_dev.Common.{true, false, [], ◌∷◌, none, ◌==◌, if◌then◌else◌, ◌≡◌}
use chronos_dev.Auth.{new_authenticator, valid_api_key, valid_worker_token}
use chronos_dev.Config.{Process, get_bool, get_parsed, get_env, load}
use chronos_dev.Config.Settings.{is_piece, load-accepted}

abbrev process : Process
process = record {
  getenv = λ key. if key == "CHRONOS_API_KEYS" then "k1, k2" else "";
  int_of = λ text. none;
  bool_of = λ text. none;
  duration_of = λ text. none;
  split = λ text. if text == "k1, k2" then "k1" ∷ " k2" ∷ [] else text ∷ [];
  trim = λ text. if text == " k2" then "k2" else text;
  worker_name = "worker-host-1";
}

-- The key `k2` is a key of clients, and no token.
load-accepted_example :
    let auth = (load process "api").auth in
    let a = new_authenticator auth.api_keys auth.worker_tokens auth.disabled in
    (valid_api_key a "k2" ≡ true) × (valid_worker_token a "k2" ≡ false)
unfolding is_piece get_bool get_parsed get_env
load-accepted_example = load-accepted process "api" "k2"
