-- ===== src/Measure/Framework.antt =====
-- e2e_tests/framework.go: the environment of the tests, and the wait for the proxy.
pub mod Loaded
use s3proxy4gcs.Base.{
  ℕ, Bool, true, false, ◌&&◌, ◌||◌, not, Option, none, some, List, [], ◌∷◌, ◌++◌, ◌==◌, Text, codes,
  text_eq, is_nil, reverse, decimal, if◌then◌else◌,
}
use s3proxy4gcs.Base.Result.{Result, ok, err}

-- `Env`.
pub record Env : Type 0 where
  pub proxy_endpoint : Text
  pub hmac_access : Text
  pub hmac_secret : Text
  pub test_bucket : Text
  pub test_prefix : Text

abbrev pub begins_in_slash : Text → Bool
begins_in_slash [] = false
begins_in_slash (c ∷ s) = c == b'/'

-- `strings.HasSuffix(s, "/")`.
abbrev pub ends_in_slash : Text → Bool
ends_in_slash s = begins_in_slash (reverse s)

-- A name, if its value is missing, before the other missing names.
abbrev pub missing_if : Text → Text → List Text → List Text
missing_if value name names = if is_nil value then name ∷ names else names

-- `LoadEnv`, for the variables that `os.Getenv` reads; the error has the missing names.
module _ (getenv : Text → Text) where
  unfoldable pub missing : List Text
  missing = missing_if (getenv (codes "PROXY_ENDPOINT")) (codes "PROXY_ENDPOINT") (
      missing_if (getenv (codes "GCS_HMAC_ACCESS")) (codes "GCS_HMAC_ACCESS")
        (missing_if (getenv (codes "GCS_HMAC_SECRET")) (codes "GCS_HMAC_SECRET") []))

  unfoldable pub with_slash : Text → Text
  with_slash prefix =
      if not (is_nil prefix) && not (ends_in_slash prefix) then prefix ++ codes "/" else prefix

  unfoldable pub load_env : Result (List Text) Env
  unfolding missing with_slash
  load_env =
      if not (is_nil missing)
      then err missing
      else ok (record {
        proxy_endpoint = getenv (codes "PROXY_ENDPOINT");
        hmac_access = getenv (codes "GCS_HMAC_ACCESS");
        hmac_secret = getenv (codes "GCS_HMAC_SECRET");
        test_bucket = codes "s3proxy-e2e-test";
        test_prefix = with_slash (getenv (codes "TEST_PREFIX"));
      })

-- `GenerateTestKey`, at the given time.
unfoldable pub generate_test_key : Env → Text → ℕ → Text
generate_test_key env suffix ts = env.test_prefix ++ (suffix ++ (codes "-" ++ decimal ts))

-- `Cleanup`: every key is tried, whatever the deletion of those before it came to. The client's
-- call is a parameter.
module _ {W : Type 0} (delete_object : Text → Text → W → Bool × W) where
  unfoldable pub cleanup : Text → List Text → W → W
  cleanup bucket [] w = w
  cleanup bucket (key ∷ keys) w = cleanup bucket keys (delete_object bucket key w).1

-- A round of `WaitForProxy`: whether the deadline is still ahead, and the status that /health
-- answers, `none` for an error.
pub record Round : Type 0 where
  pub before_deadline : Bool
  pub health : Option ℕ

abbrev is_healthy : Option ℕ → Bool
is_healthy none = false
is_healthy (some status) = status == 200

pub data Waited : Type 0 where
  healthy timed_out still_waiting : Waited

unfoldable pub wait_for_proxy : List Round → Waited
wait_for_proxy [] = still_waiting
wait_for_proxy (r ∷ rs) =
    let later = wait_for_proxy rs in
    if not r.before_deadline then timed_out else if is_healthy r.health then healthy else later
