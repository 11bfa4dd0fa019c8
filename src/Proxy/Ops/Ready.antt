-- ===== src/Proxy/Ops/Ready.antt =====
-- When /readyz says that the proxy is ready.
use s3proxy4gcs.Base.{
  ◌≡◌, refl, true, Bool, ◌||◌, ◌&&◌, none, some, is_nil, if◌then◌else◌, Bool-cases, inl, inr,
}
use s3proxy4gcs.Proxy.Monad.{State, ◌>>=◌, return_if}
use s3proxy4gcs.Proxy.Client.{Env}
use s3proxy4gcs.Proxy.Ops.{is_ok, answer, readyz_handler, readyz}

-- A dry run, or a client, and a bucket to probe that answers, if one is set.
abbrev pub is_ready : {W : Type 0} → Env W → W → Bool
is_ready env w =
    env.settings.dry_run
    || env.has_client
      && (is_nil env.settings.target_bucket
          || is_ok (env.bucket_attrs env.settings.target_bucket w))

-- Where /readyz is switched on, it answers with the status 200 if the proxy is ready and with 503
-- if it is not, and changes nothing in the storage service.
pub readyz-status :
    {W : Type 0} (env : Env W) (s : State W)
    → env.settings.features.readyz_endpoint ≡ true
    → s.status ≡ none
    → ((readyz env s).1.status ≡ some (if is_ready env s.world then 200 else 503))
      × ((readyz env s).1.world ≡ s.world)
unfolding readyz return_if ◌>>=◌ readyz_handler answer
readyz-status env s on unanswered = elim (Bool-cases env.settings.dry_run) [
  | inl dry ↦ rw (on, dry, unanswered) (refl, refl)
  | inr live ↦ elim (Bool-cases env.has_client) [
    | inr no_client ↦ rw (on, live, no_client, unanswered) (refl, refl)
    | inl client ↦ elim (Bool-cases (is_nil env.settings.target_bucket)) [
      | inl any ↦ rw (on, live, client, any, unanswered) (refl, refl)
      | inr bucket ↦
          elim (Bool-cases (is_ok (env.bucket_attrs env.settings.target_bucket s.world))) [
            | inl answers ↦ rw (on, live, client, bucket, answers, unanswered) (refl, refl)
            | inr fails ↦ rw (on, live, client, bucket, fails, unanswered) (refl, refl)
          ]
    ]
  ]
]
