-- ===== src/Measure/Framework/Loaded.antt =====
-- What `LoadEnv` accepts and what it gives.
use s3proxy4gcs.Base.{
  ◌≡◌, ◌≢◌, refl, ap, Bool, true, false, List, [], ◌∷◌, ◌++◌, Text, codes, is_nil, arith, not, ◌&&◌,
  ◌||◌, if◌then◌else◌,
}
use mathlib.Core.List.{reverse-append}
use s3proxy4gcs.Base.Result.{Result, ok, err}
use s3proxy4gcs.Measure.Framework.{
  Env, missing, missing_if, with_slash, load_env, ends_in_slash, begins_in_slash,
}

-- Empty, or with a slash at its end.
abbrev pub IsPrefix : Text → Type 0
IsPrefix p = (is_nil p || ends_in_slash p) ≡ true

pub record IsLoaded (e : Env) : Type 0 where
  pub has_endpoint : e.proxy_endpoint ≢ []
  pub has_access : e.hmac_access ≢ []
  pub has_secret : e.hmac_secret ≢ []
  pub is_prefix : IsPrefix e.test_prefix

module _ (getenv : Text → Text) where
  with_slash-IsPrefix : (p : Text) → IsPrefix (with_slash getenv p)
  unfolding with_slash
  with_slash-IsPrefix p = go (not (is_nil p) && not (ends_in_slash p)) refl
    where
      go :
          (b : Bool)
          → (not (is_nil p) && not (ends_in_slash p)) ≡ b
          → IsPrefix (if b then p ++ codes "/" else p)
      go true e =
          let ends : ends_in_slash (p ++ codes "/") ≡ true =
            ap begins_in_slash (reverse-append p (codes "/")) in
          ground (arith, ends)
      go false e = ground (arith, e)

  missing_if-nil :
      (value name : Text) (names : List Text)
      → is_nil (missing_if value name names) ≡ true
      → (value ≢ []) × (is_nil names ≡ true)
  missing_if-nil [] name names h = absurd (ground (arith, h))
  missing_if-nil (c ∷ value) name names h = (ground arith, h)

  abbrev pub IsFine : Result (List Text) Env → Type 0
  IsFine (err names) = names ≢ []
  IsFine (ok e) = IsLoaded e

  -- An environment that loads has an endpoint and both keys, and its prefix is empty or ends in a
  -- slash; one that does not load names a missing variable at least.
  pub load_env-IsFine : IsFine (load_env getenv)
  unfolding load_env missing
  load_env-IsFine = go (missing getenv) refl
    where
      go :
          (names : List Text)
          → missing getenv ≡ names
          → IsFine (
              if not (is_nil names)
              then err names
              else ok (record {
                proxy_endpoint = getenv (codes "PROXY_ENDPOINT");
                hmac_access = getenv (codes "GCS_HMAC_ACCESS");
                hmac_secret = getenv (codes "GCS_HMAC_SECRET");
                test_bucket = codes "s3proxy-e2e-test";
                test_prefix = with_slash getenv (getenv (codes "TEST_PREFIX"));
              }))
      go (n ∷ names) e = ground arith
      go [] e =
          let (endpoint, rest) =
            missing_if-nil (getenv (codes "PROXY_ENDPOINT")) (codes "PROXY_ENDPOINT") _
              (ap is_nil e) in
          let (access, rest') =
            missing_if-nil (getenv (codes "GCS_HMAC_ACCESS")) (codes "GCS_HMAC_ACCESS") _ rest in
          let (secret, rest'') =
            missing_if-nil (getenv (codes "GCS_HMAC_SECRET")) (codes "GCS_HMAC_SECRET") [] rest' in
          record {
            has_endpoint = endpoint;
            has_access = access;
            has_secret = secret;
            is_prefix = with_slash-IsPrefix (getenv (codes "TEST_PREFIX"));
          }
