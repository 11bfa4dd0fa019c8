-- ===== src/Tests/Updates.antt =====
-- PUT and GET of the lifecycle and of the logging of a bucket.
use s3proxy4gcs.Base.{
  ◌≡◌, refl, false, none, some, [], ◌∷◌, Text, codes, All, arith, split, trim, text_eq,
}
use s3proxy4gcs.Base.Result.{ok}
use s3proxy4gcs.Http.{put, get}
use s3proxy4gcs.Translate.S3.{LifecycleConfiguration}
use s3proxy4gcs.Translate.Gcs.{Lifecycle}
use s3proxy4gcs.Translate.Lifecycle.{translate_s3_to_gcs_lifecycle}
use s3proxy4gcs.Translate.Lifecycle.RoundTrip.{IsCommon, expire}
use s3proxy4gcs.Translate.Lifecycle.Reverse.{translate_gcs_to_s3_lifecycle}
use s3proxy4gcs.Translate.Dates.{zero_date, is_civil}
use s3proxy4gcs.Proxy.Client.{Env}
use s3proxy4gcs.Proxy.Monad.{◌>>=◌, return_if, lifecycle_xml}
use s3proxy4gcs.Proxy.Helpers.{path_parts, read_capped, first_part}
use s3proxy4gcs.Proxy.Lifecycle.{handle_put_lifecycle, handle_get_lifecycle}
use s3proxy4gcs.Proxy.Logging.{handle_put_logging}
use s3proxy4gcs.Proxy.Updates.Lifecycle.{
  IsPutOf, handle_put_lifecycle-sends, handle_put_lifecycle-after_get,
}
use s3proxy4gcs.Proxy.Updates.Logging.{handle_put_logging-disabled}
use s3proxy4gcs.Tests.Sample.{nobody, env_of, monthly, fresh, lifecycle_of_bucket}

abbrev shown_config : LifecycleConfiguration
shown_config = translate_gcs_to_s3_lifecycle monthly

abbrev put_env : LifecycleConfiguration → Env Lifecycle
put_env cfg = env_of false nobody (some cfg)

abbrev bucket : Text
bucket = codes "bucket"

addressed : first_part (path_parts (codes "/bucket")) ≡ some bucket
unfolding path_parts split trim text_eq
addressed = refl

put-IsPutOf :
    (cfg : LifecycleConfiguration) → IsPutOf (put_env cfg) (lifecycle_of_bucket put []) bucket cfg
unfolding read_capped
put-IsPutOf cfg = record {
  body = codes "<x/>";
  capped = refl;
  decoded = refl;
  addressed = addressed;
}

abbrev empty_config : LifecycleConfiguration
empty_config = record { rules = [] }

handle_put_lifecycle-sends_example :
    ((handle_put_lifecycle (put_env empty_config) (lifecycle_of_bucket put []) fresh).1.world
      ≡ record { rules = [] })
    × ((handle_put_lifecycle (put_env empty_config) (lifecycle_of_bucket put []) fresh).1.status
        ≡ some 200)
handle_put_lifecycle-sends_example =
    handle_put_lifecycle-sends (put_env empty_config) (lifecycle_of_bucket put []) bucket
      empty_config (record { rules = [] }) fresh (ok tt) (record { rules = [] }) refl
      (put-IsPutOf empty_config) refl (unfold translate_s3_to_gcs_lifecycle in refl) refl

monthly_rule-IsCommon : All IsCommon monthly.rules
monthly_rule-IsCommon = (expire 30 zero_date [] (omega arith, unfold is_civil in refl) tt, tt)

got :
    (handle_get_lifecycle (put_env shown_config) (lifecycle_of_bucket get []) fresh).1.body
    ≡ (lifecycle_xml shown_config ∷ [])
unfolding handle_get_lifecycle ◌>>=◌ split trim text_eq return_if translate_gcs_to_s3_lifecycle
got = refl

handle_put_lifecycle-after_get_example :
    ((handle_put_lifecycle (put_env shown_config) (lifecycle_of_bucket put []) fresh).1.world
      ≡ monthly)
    × ((handle_put_lifecycle (put_env shown_config) (lifecycle_of_bucket put []) fresh).1.status
        ≡ some 200)
handle_put_lifecycle-after_get_example =
    handle_put_lifecycle-after_get (put_env shown_config) (lifecycle_of_bucket get [])
      (lifecycle_of_bucket put []) bucket
      (record { lifecycle = monthly; cors = []; logging = none; website = none }) shown_config fresh
      fresh (ok tt) monthly refl addressed refl refl refl
      (unfold translate_gcs_to_s3_lifecycle in refl) monthly_rule-IsCommon got
      (put-IsPutOf shown_config) refl refl

handle_put_logging-disabled_example :
    ((handle_put_logging (put_env empty_config) (lifecycle_of_bucket put []) fresh).1.world
      ≡ monthly)
    × ((handle_put_logging (put_env empty_config) (lifecycle_of_bucket put []) fresh).1.status
        ≡ some 200)
handle_put_logging-disabled_example =
    handle_put_logging-disabled (put_env empty_config) (lifecycle_of_bucket put []) bucket
      (codes "<x/>") fresh (ok tt) monthly refl (unfold read_capped in refl) refl addressed refl
      refl
