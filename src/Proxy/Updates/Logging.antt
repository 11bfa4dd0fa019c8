-- ===== src/Proxy/Updates/Logging.antt =====
-- What PUT of `?logging` sends.
use s3proxy4gcs.Base.{◌≡◌, false, none, some, Text}
use s3proxy4gcs.Base.Result.{Result, ok, err}
use s3proxy4gcs.Http.{Request}
use s3proxy4gcs.Translate.Logging.{translate_s3_to_gcs_logging}
use s3proxy4gcs.Proxy.Client.{Env, no_update, GcsError}
use s3proxy4gcs.Proxy.Monad.{State, ◌>>=◌, return_if}
use s3proxy4gcs.Proxy.Helpers.{
  first_part, path_parts, read_capped, whole, decode_control_plane_xml, parse_bucket_from_path,
  time_gcs_call, or_fail, write_error,
}
use s3proxy4gcs.Proxy.Logging.{handle_put_logging}
use s3proxy4gcs.Proxy.Updates.Lifecycle.{status_of}

-- A PUT whose status has no `LoggingEnabled` element, which in S3 switches the logging off, sends an
-- update in which every field is nil, so none that asks for a change.
pub handle_put_logging-disabled :
    {W : Type 0} (env : Env W) (r : Request) (bucket body : Text) (s : State W)
    (result : Result GcsError (Unit {0})) (world : W)
    → env.settings.dry_run ≡ false
    → read_capped r.body ≡ whole body
    → env.unmarshal_logging body ≡ some (record { logging_enabled = none })
    → first_part (path_parts r.path) ≡ some bucket
    → s.status ≡ none
    → env.bucket_update bucket no_update s.world ≡ (result, world)
    → ((handle_put_logging env r s).1.world ≡ world)
      × ((handle_put_logging env r s).1.status ≡ some (status_of result))
unfolding handle_put_logging ◌>>=◌ return_if decode_control_plane_xml parse_bucket_from_path
    time_gcs_call or_fail write_error translate_s3_to_gcs_logging
handle_put_logging-disabled env r bucket body s (ok a) world live capped decoded addressed fresh e =
    (rw (capped, decoded, addressed, live, e), rw (capped, decoded, addressed, live, e, fresh))
handle_put_logging-disabled env r bucket body s (err x) world live capped decoded addressed fresh
      e =
    (rw (capped, decoded, addressed, live, e), rw (capped, decoded, addressed, live, e, fresh))
