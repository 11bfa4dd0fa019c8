-- ===== src/Tests/Translation.antt =====
-- The translations between the configurations of S3 and those of GCS.
use s3proxy4gcs.Base.{
  ◌*◌, ◌≤◌, ◌≡◌, ◌↔◌, refl, none, some, List, [], ◌∷◌, codes, arith, All, pos, lookup, text_eq,
}
use s3proxy4gcs.Base.Result.{ok, IsOk}
use s3proxy4gcs.Translate.S3.{LifecycleConfiguration, CorsConfiguration, Tagging}
use s3proxy4gcs.Translate.Gcs.{Lifecycle, Cors, ObjectContexts}
use s3proxy4gcs.Translate.Lifecycle.{translate_s3_to_gcs_lifecycle, abort_rule}
use s3proxy4gcs.Translate.Lifecycle.Accepts.{IsTranslatable, translate_s3_to_gcs_lifecycle-IsOk}
use s3proxy4gcs.Translate.Lifecycle.Reverse.{translate_gcs_to_s3_lifecycle}
use s3proxy4gcs.Translate.Lifecycle.RoundTrip.{
  abort, translate_s3_to_gcs_lifecycle-translate_gcs_to_s3_lifecycle,
}
use s3proxy4gcs.Translate.Cors.{seconds, second, translate_s3_to_gcs_cors, translate_gcs_to_s3_cors}
use s3proxy4gcs.Translate.Cors.MaxAge.{
  seconds_iff, translate_s3_to_gcs_cors-translate_gcs_to_s3_cors,
}
use s3proxy4gcs.Translate.Tagging.{
  upsert, translate_s3_to_gcs_contexts, translate_gcs_contexts_to_s3_tagging,
}
use s3proxy4gcs.Translate.Tagging.Patch.{
  IsPatched, tag_value, lookup-translate_s3_to_gcs_contexts, get_after_put,
}

abbrev tidy : Lifecycle
tidy = record { rules = abort_rule (pos 7) ∷ [] }

abbrev tidy_config : LifecycleConfiguration
tidy_config = translate_gcs_to_s3_lifecycle tidy

round_trip_example : translate_s3_to_gcs_lifecycle tidy_config ≡ ok tidy
round_trip_example = translate_s3_to_gcs_lifecycle-translate_gcs_to_s3_lifecycle tidy (abort 6, tt)

translate_s3_to_gcs_lifecycle-IsOk_example :
    IsOk (translate_s3_to_gcs_lifecycle tidy_config)
    ↔ All (λ r. r.status ≡ codes "Enabled" → IsTranslatable r) tidy_config.rules
translate_s3_to_gcs_lifecycle-IsOk_example = translate_s3_to_gcs_lifecycle-IsOk tidy_config

seconds_iff_example : (seconds (pos 60) ≡ pos (60 * second)) ↔ (60 ≤ 9223372036)
seconds_iff_example = seconds_iff 60 (omega arith)

abbrev gcs_cors : List Cors
gcs_cors =
    record {
      max_age = pos (60 * second);
      methods = codes "GET" ∷ [];
      origins = codes "*" ∷ [];
      response_headers = [];
    }
    ∷ []

abbrev back : CorsConfiguration
back = record {
  cors_rules =
      record {
        id = none;
        allowed_headers = [];
        allowed_methods = codes "GET" ∷ [];
        allowed_origins = codes "*" ∷ [];
        expose_headers = [];
        max_age_seconds = some (pos 60);
      }
      ∷ [];
}

cors_example : translate_s3_to_gcs_cors (λ t. t) back ≡ (gcs_cors, [])
cors_example =
    translate_s3_to_gcs_cors-translate_gcs_to_s3_cors (λ t. t) gcs_cors
      ((60, omega arith, refl), tt) (unfold translate_gcs_to_s3_cors in refl)

abbrev tagging : Tagging
tagging = record { tag_set = record { key = codes "k"; value = codes "v" } ∷ [] }

abbrev no_contexts : ObjectContexts
no_contexts = record { custom = [] }

lookup-translate_s3_to_gcs_contexts_example :
    lookup (codes "k") (translate_s3_to_gcs_contexts tagging (some no_contexts)).custom
    ≡ some (upsert (codes "v"))
unfolding text_eq
lookup-translate_s3_to_gcs_contexts_example =
    lookup-translate_s3_to_gcs_contexts (codes "k") tagging (some no_contexts)

abbrev with_tag : ObjectContexts
with_tag = record { custom = (codes "k", upsert (codes "v")) ∷ [] }

with_tag-IsPatched :
    IsPatched
      (translate_s3_to_gcs_contexts tagging (some no_contexts)).custom
      no_contexts.custom
      with_tag.custom
unfolding lookup
with_tag-IsPatched j =
    ground (arith, lookup-translate_s3_to_gcs_contexts j tagging (some no_contexts))

get_after_put_example :
    tag_value (codes "k") (translate_gcs_contexts_to_s3_tagging (some with_tag)).tag_set
    ≡ some (codes "v")
unfolding text_eq lookup
get_after_put_example =
    get_after_put (codes "k") tagging no_contexts with_tag (refl, tt) with_tag-IsPatched
