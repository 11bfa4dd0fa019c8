-- ===== src/Proxy/Updates/Lifecycle.antt =====
-- What PUT and GET of `?lifecycle` send and show.
use mathlib.Core.Option.{some-injective}
use s3proxy4gcs.Base.{
  sym, ◌∙◌, ℕ, ◌≡◌, ap, false, Option, none, some, is_nil, List, [], ◌∷◌, ◌++◌, Text, All,
}
use s3proxy4gcs.Base.Result.{Result, ok, err}
use s3proxy4gcs.Http.{Request}
use s3proxy4gcs.Translate.S3.{LifecycleConfiguration}
use s3proxy4gcs.Translate.Gcs.{Lifecycle}
use s3proxy4gcs.Translate.Lifecycle.{Error, translate_s3_to_gcs_lifecycle}
use s3proxy4gcs.Translate.Lifecycle.Reverse.{translate_gcs_to_s3_lifecycle}
use s3proxy4gcs.Translate.Lifecycle.RoundTrip.{
  IsCommon, translate_s3_to_gcs_lifecycle-translate_gcs_to_s3_lifecycle,
}
use s3proxy4gcs.Proxy.Client.{Env, no_update, GcsError, BucketAttrs}
use s3proxy4gcs.Proxy.Monad.{State, BodyPart, ◌>>=◌, return_if, lifecycle_xml, lifecycle_error}
use s3proxy4gcs.Proxy.Helpers.{
  first_part, path_parts, read_capped, whole, decode_control_plane_xml, parse_bucket_from_path,
  time_gcs_call, or_fail, write_xml, write_error,
}
use s3proxy4gcs.Proxy.Lifecycle.{handle_put_lifecycle, translated, handle_get_lifecycle}

-- A request whose body decodes to `cfg` and whose path names `bucket`.
pub record IsPutOf {W : Type 0} (env : Env W) (r : Request) (bucket : Text)
    (cfg : LifecycleConfiguration) : Type 0 where
  pub body : Text
  pub capped : read_capped r.body ≡ whole body
  pub decoded : env.unmarshal_lifecycle body ≡ some cfg
  pub addressed : first_part (path_parts r.path) ≡ some bucket

-- The status of an update's result.
abbrev pub status_of : {A : Type 0} → Result GcsError A → ℕ
status_of (ok a) = 200
status_of (err e) = 502

-- A PUT that is no dry run and whose configuration has a translation sends exactly that translation
-- to the bucket of its path; the storage service is then as the update leaves it, and the status
-- is 200 if the update succeeds and 502 if it fails.
pub handle_put_lifecycle-sends :
    {W : Type 0} (env : Env W) (r : Request) (bucket : Text) (cfg : LifecycleConfiguration)
    (l : Lifecycle) (s : State W) (result : Result GcsError (Unit {0})) (world : W)
    → env.settings.dry_run ≡ false
    → IsPutOf env r bucket cfg
    → s.status ≡ none
    → translate_s3_to_gcs_lifecycle cfg ≡ ok l
    → env.bucket_update bucket (record no_update { lifecycle = some l }) s.world ≡ (result, world)
    → ((handle_put_lifecycle env r s).1.world ≡ world)
      × ((handle_put_lifecycle env r s).1.status ≡ some (status_of result))
unfolding handle_put_lifecycle ◌>>=◌ return_if translated decode_control_plane_xml
    parse_bucket_from_path time_gcs_call or_fail write_error
handle_put_lifecycle-sends env r bucket cfg l s (ok a) world live put fresh h e = (
  rw (put.capped, put.decoded, put.addressed, h, live, e),
  rw (put.capped, put.decoded, put.addressed, h, live, e, fresh),
)
handle_put_lifecycle-sends env r bucket cfg l s (err x) world live put fresh h e = (
  rw (put.capped, put.decoded, put.addressed, h, live, e),
  rw (put.capped, put.decoded, put.addressed, h, live, e, fresh),
)

-- A PUT whose configuration the translation rejects answers with the status 400 and the error, and
-- does not change the storage service.
pub handle_put_lifecycle-rejects :
    {W : Type 0} (env : Env W) (r : Request) (bucket : Text) (cfg : LifecycleConfiguration)
    (x : Error) (s : State W)
    → IsPutOf env r bucket cfg
    → s.status ≡ none
    → translate_s3_to_gcs_lifecycle cfg ≡ err x
    → ((handle_put_lifecycle env r s).1.world ≡ s.world)
      × ((handle_put_lifecycle env r s).1.status ≡ some 400)
      × ((handle_put_lifecycle env r s).1.body ≡ s.body ++ (lifecycle_error x ∷ []))
unfolding handle_put_lifecycle ◌>>=◌ translated decode_control_plane_xml parse_bucket_from_path
    write_error
handle_put_lifecycle-rejects env r bucket cfg x s put fresh h = (
  rw (put.capped, put.decoded, put.addressed, h),
  rw (put.capped, put.decoded, put.addressed, h, fresh),
  rw (put.capped, put.decoded, put.addressed, h),
)

-- A GET that is no dry run, of a bucket that has rules, shows their translation with the status 200.
handle_get_lifecycle-shows :
    {W : Type 0} (env : Env W) (r : Request) (bucket : Text) (attrs : BucketAttrs) (s : State W)
    → env.settings.dry_run ≡ false
    → first_part (path_parts r.path) ≡ some bucket
    → s.status ≡ none
    → env.bucket_attrs bucket s.world ≡ ok attrs
    → is_nil (translate_gcs_to_s3_lifecycle attrs.lifecycle).rules ≡ false
    → ((handle_get_lifecycle env r s).1.status ≡ some 200)
      × ((handle_get_lifecycle env r s).1.body
          ≡ s.body ++ (lifecycle_xml (translate_gcs_to_s3_lifecycle attrs.lifecycle) ∷ []))
unfolding handle_get_lifecycle ◌>>=◌ return_if parse_bucket_from_path time_gcs_call or_fail
    write_xml
handle_get_lifecycle-shows env r bucket attrs s live addressed fresh e some_rules =
    (rw (addressed, live, e, some_rules, fresh), rw (addressed, live, e, some_rules))

abbrev shown : List BodyPart → Option LifecycleConfiguration
shown (lifecycle_xml cfg ∷ []) = some cfg
shown _ = none

-- Of a bucket whose rules S3 has words for, the configuration that GET shows, put back unchanged,
-- updates the bucket with the lifecycle that it has.
pub handle_put_lifecycle-after_get :
    {W : Type 0} (env : Env W) (r r' : Request) (bucket : Text) (attrs : BucketAttrs)
    (cfg : LifecycleConfiguration) (s t : State W) (result : Result GcsError (Unit {0})) (world : W)
    → env.settings.dry_run ≡ false
    → first_part (path_parts r.path) ≡ some bucket
    → s.status ≡ none
    → s.body ≡ []
    → env.bucket_attrs bucket s.world ≡ ok attrs
    → is_nil (translate_gcs_to_s3_lifecycle attrs.lifecycle).rules ≡ false
    → All IsCommon attrs.lifecycle.rules
    → (handle_get_lifecycle env r s).1.body ≡ (lifecycle_xml cfg ∷ [])
    → IsPutOf env r' bucket cfg
    → t.status ≡ none
    → env.bucket_update bucket (record no_update { lifecycle = some attrs.lifecycle }) t.world
      ≡ (result, world)
    → ((handle_put_lifecycle env r' t).1.world ≡ world)
      × ((handle_put_lifecycle env r' t).1.status ≡ some (status_of result))
handle_put_lifecycle-after_get env r r' bucket attrs cfg s t result world live addressed fresh blank
      e some_rules common got put fresh' sent =
    let shows =
      (handle_get_lifecycle-shows env r bucket attrs s live addressed fresh e some_rules).1 in
    let same : cfg ≡ translate_gcs_to_s3_lifecycle attrs.lifecycle = some-injective _ _ (
      ap shown (
        sym got
        ∙ shows
        ∙ ap (λ b. b ++ (lifecycle_xml (translate_gcs_to_s3_lifecycle attrs.lifecycle) ∷ []))
            blank)) in
    handle_put_lifecycle-sends env r' bucket cfg attrs.lifecycle t result world live put fresh'
      (ap translate_s3_to_gcs_lifecycle same
        ∙ translate_s3_to_gcs_lifecycle-translate_gcs_to_s3_lifecycle attrs.lifecycle common)
      sent
