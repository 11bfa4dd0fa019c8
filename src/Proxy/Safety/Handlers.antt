-- ===== src/Proxy/Safety/Handlers.antt =====
-- The handlers and the gates that only read, in every configuration.
use s3proxy4gcs.Base.{refl, Option, none, some, List, [], ◌∷◌, Text}
use s3proxy4gcs.Base.Result.{Result, ok, err}
use s3proxy4gcs.Http.{Request}
use s3proxy4gcs.Proxy.Client.{Env, GcsError}
use s3proxy4gcs.Proxy.Rules.World.{Reads}
use s3proxy4gcs.Proxy.Rules.Helpers.{helpers_read}
use s3proxy4gcs.Translate.Gcs.{Lifecycle}
use s3proxy4gcs.Translate.S3.{WebsiteConfiguration}
use s3proxy4gcs.Translate.Lifecycle.{Error}
use s3proxy4gcs.CredStore.{Store, find}
use s3proxy4gcs.Proxy.Helpers.{BodyRead, whole, too_big, failed}
use s3proxy4gcs.Proxy.Credentials.{resolve, look_up, validate_client_credential}
use s3proxy4gcs.Proxy.Dispatch.{
  credential_gate, storage_class_gate, chunked_gate, data_plane_gates, forward,
}
use s3proxy4gcs.Proxy.Restore.{drain_body, probe_failed, probe, handle_restore_object}
use s3proxy4gcs.Proxy.Lifecycle.{translated, handle_get_lifecycle}
use s3proxy4gcs.Proxy.Cors.{warn_dropped, handle_get_cors}
use s3proxy4gcs.Proxy.Logging.{handle_get_logging}
use s3proxy4gcs.Proxy.Website.{show_website, handle_get_website}
use s3proxy4gcs.Proxy.Tagging.{handle_get_object_tagging}

module _ {W : Type 0} (env : Env W) where
  pub translated-Reads : (result : Result Error Lifecycle) → Reads (translated env result)
  unfolding translated
  translated-Reads (ok l) = search helpers_read
  translated-Reads (err e) = search helpers_read

  pub warn_dropped-Reads : (dropped : List Text) → Reads (warn_dropped env dropped)
  unfolding warn_dropped
  warn_dropped-Reads [] = search helpers_read
  warn_dropped-Reads (h ∷ hs) = search helpers_read

  show_website-Reads : (cfg : Option WebsiteConfiguration) → Reads (show_website env cfg)
  unfolding show_website
  show_website-Reads none = search helpers_read
  show_website-Reads (some cfg) = search helpers_read

  drain_body-Reads : (b : BodyRead) → Reads (drain_body env b)
  unfolding drain_body
  drain_body-Reads (whole body) = search helpers_read
  drain_body-Reads too_big = search helpers_read
  drain_body-Reads failed = search helpers_read

  probe_failed-Reads : (e : GcsError) → Reads (probe_failed env e)
  unfolding probe_failed
  probe_failed-Reads e = search helpers_read

  probe-Reads : (bucket object : Text) → Reads (probe env bucket object)
  unfolding probe
  probe-Reads bucket object = search (probe_failed-Reads, helpers_read) depth 12

  pub handle_restore_object-Reads : (r : Request) → Reads (handle_restore_object env r)
  unfolding handle_restore_object
  handle_restore_object-Reads r = search (drain_body-Reads, probe-Reads, helpers_read) depth 12

  pub handle_get_lifecycle-Reads : (r : Request) → Reads (handle_get_lifecycle env r)
  unfolding handle_get_lifecycle
  handle_get_lifecycle-Reads r = search helpers_read depth 12

  pub handle_get_cors-Reads : (r : Request) → Reads (handle_get_cors env r)
  unfolding handle_get_cors
  handle_get_cors-Reads r = search helpers_read depth 12

  pub handle_get_logging-Reads : (r : Request) → Reads (handle_get_logging env r)
  unfolding handle_get_logging
  handle_get_logging-Reads r = search helpers_read depth 12

  pub handle_get_website-Reads : (r : Request) → Reads (handle_get_website env r)
  unfolding handle_get_website
  handle_get_website-Reads r = search (show_website-Reads, helpers_read) depth 12

  pub handle_get_object_tagging-Reads : (r : Request) → Reads (handle_get_object_tagging env r)
  unfolding handle_get_object_tagging
  handle_get_object_tagging-Reads r = search helpers_read depth 12

  resolve-Reads : (r : Request) (ak : Text) (sk : Option Text) → Reads {W = W} (resolve r ak sk)
  unfolding resolve
  resolve-Reads r ak (some sk) = search helpers_read
  resolve-Reads r ak none = search helpers_read

  look_up-Reads :
      (store : Store) (r : Request) (ak : Option Text) → Reads {W = W} (look_up store r ak)
  unfolding look_up
  look_up-Reads store r (some ak) = resolve-Reads r ak (find store ak)
  look_up-Reads store r none = search helpers_read

  validate_client_credential-Reads : (r : Request) → Reads (validate_client_credential env r)
  unfolding validate_client_credential
  validate_client_credential-Reads r = search (look_up-Reads, helpers_read)

  pub credential_gate-Reads : (r : Request) → Reads (credential_gate env r)
  unfolding credential_gate
  credential_gate-Reads r = search (validate_client_credential-Reads, helpers_read)

  pub storage_class_gate-Reads : (r : Request) → Reads (storage_class_gate env r)
  unfolding storage_class_gate
  storage_class_gate-Reads r = search helpers_read

  pub chunked_gate-Reads : (r : Request) → Reads (chunked_gate env r)
  unfolding chunked_gate
  chunked_gate-Reads r = search helpers_read

  pub data_plane_gates-Reads : (r : Request) → Reads (data_plane_gates env r)
  unfolding data_plane_gates
  data_plane_gates-Reads r = search helpers_read depth 10

  pub forward-Reads : (r : Request) → Reads {W = W} (forward r)
  unfolding forward
  forward-Reads r = record { at = λ s. refl }

pub ruleset gates_read = (
  helpers_read, credential_gate-Reads, storage_class_gate-Reads, chunked_gate-Reads,
  data_plane_gates-Reads, forward-Reads,
)
