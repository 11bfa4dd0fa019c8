-- ===== src/Proxy/Answers/Handlers.antt =====
-- Every handler of a subresource answers its request, whatever the storage service says.
use s3proxy4gcs.Base.{Option, none, some, List, [], ◌∷◌, Text}
use s3proxy4gcs.Base.Result.{Result, ok, err}
use s3proxy4gcs.Http.{Request}
use s3proxy4gcs.Proxy.Client.{Env, GcsError}
use s3proxy4gcs.Translate.Gcs.{Lifecycle}
use s3proxy4gcs.Translate.S3.{WebsiteConfiguration}
use s3proxy4gcs.Translate.Lifecycle.{Error}
use s3proxy4gcs.Proxy.Helpers.{BodyRead, whole, too_big, failed}
use s3proxy4gcs.Proxy.Restore.{drain_body, probe_failed, probe, handle_restore_object}
use s3proxy4gcs.Proxy.Lifecycle.{
  translated, handle_put_lifecycle, handle_get_lifecycle, handle_delete_lifecycle,
}
use s3proxy4gcs.Proxy.Cors.{warn_dropped, handle_put_cors, handle_get_cors, handle_delete_cors}
use s3proxy4gcs.Proxy.Logging.{handle_put_logging, handle_get_logging, handle_delete_logging}
use s3proxy4gcs.Proxy.Website.{
  show_website, handle_put_website, handle_get_website, handle_delete_website,
}
use s3proxy4gcs.Proxy.Tagging.{
  handle_put_object_tagging, handle_get_object_tagging, handle_delete_object_tagging,
}
use s3proxy4gcs.Proxy.Rules.Answers.{open_phase, answered, Leads}
use s3proxy4gcs.Proxy.Answers.Helpers.{helpers_lead}

module _ {W : Type 0} (env : Env W) where
  translated-Leads :
      (result : Result Error Lifecycle) → Leads open_phase open_phase (translated env result)
  unfolding translated
  translated-Leads (ok l) = search helpers_lead
  translated-Leads (err e) = search helpers_lead

  warn_dropped-Leads :
      (dropped : List Text) → Leads open_phase open_phase (warn_dropped env dropped)
  unfolding warn_dropped
  warn_dropped-Leads [] = search helpers_lead
  warn_dropped-Leads (h ∷ hs) = search helpers_lead

  show_website-Leads :
      (cfg : Option WebsiteConfiguration) → Leads open_phase answered (show_website env cfg)
  unfolding show_website
  show_website-Leads none = search helpers_lead
  show_website-Leads (some cfg) = search helpers_lead

  drain_body-Leads : (b : BodyRead) → Leads open_phase open_phase (drain_body env b)
  unfolding drain_body
  drain_body-Leads (whole body) = search helpers_lead
  drain_body-Leads too_big = search helpers_lead
  drain_body-Leads failed = search helpers_lead

  probe_failed-Leads : (e : GcsError) → Leads open_phase answered (probe_failed env e)
  unfolding probe_failed
  probe_failed-Leads e = search helpers_lead

  probe-Leads : (bucket object : Text) → Leads open_phase open_phase (probe env bucket object)
  unfolding probe
  probe-Leads bucket object = search (probe_failed-Leads, helpers_lead) depth 12

  pub handle_restore_object-Leads :
      (r : Request) → Leads open_phase answered (handle_restore_object env r)
  unfolding handle_restore_object
  handle_restore_object-Leads r = search (drain_body-Leads, probe-Leads, helpers_lead) depth 12

  pub handle_put_lifecycle-Leads :
      (r : Request) → Leads open_phase answered (handle_put_lifecycle env r)
  unfolding handle_put_lifecycle
  handle_put_lifecycle-Leads r = search (translated-Leads, helpers_lead) depth 12

  pub handle_get_lifecycle-Leads :
      (r : Request) → Leads open_phase answered (handle_get_lifecycle env r)
  unfolding handle_get_lifecycle
  handle_get_lifecycle-Leads r = search helpers_lead depth 12

  pub handle_delete_lifecycle-Leads :
      (r : Request) → Leads open_phase answered (handle_delete_lifecycle env r)
  unfolding handle_delete_lifecycle
  handle_delete_lifecycle-Leads r = search helpers_lead depth 12

  pub handle_put_cors-Leads : (r : Request) → Leads open_phase answered (handle_put_cors env r)
  unfolding handle_put_cors
  handle_put_cors-Leads r = search (warn_dropped-Leads, helpers_lead) depth 12

  pub handle_get_cors-Leads : (r : Request) → Leads open_phase answered (handle_get_cors env r)
  unfolding handle_get_cors
  handle_get_cors-Leads r = search helpers_lead depth 12

  pub handle_delete_cors-Leads :
      (r : Request) → Leads open_phase answered (handle_delete_cors env r)
  unfolding handle_delete_cors
  handle_delete_cors-Leads r = search helpers_lead depth 12

  pub handle_put_logging-Leads :
      (r : Request) → Leads open_phase answered (handle_put_logging env r)
  unfolding handle_put_logging
  handle_put_logging-Leads r = search helpers_lead depth 12

  pub handle_get_logging-Leads :
      (r : Request) → Leads open_phase answered (handle_get_logging env r)
  unfolding handle_get_logging
  handle_get_logging-Leads r = search helpers_lead depth 12

  pub handle_delete_logging-Leads :
      (r : Request) → Leads open_phase answered (handle_delete_logging env r)
  unfolding handle_delete_logging
  handle_delete_logging-Leads r = search helpers_lead depth 12

  pub handle_put_website-Leads :
      (r : Request) → Leads open_phase answered (handle_put_website env r)
  unfolding handle_put_website
  handle_put_website-Leads r = search helpers_lead depth 12

  pub handle_get_website-Leads :
      (r : Request) → Leads open_phase answered (handle_get_website env r)
  unfolding handle_get_website
  handle_get_website-Leads r = search (show_website-Leads, helpers_lead) depth 12

  pub handle_delete_website-Leads :
      (r : Request) → Leads open_phase answered (handle_delete_website env r)
  unfolding handle_delete_website
  handle_delete_website-Leads r = search helpers_lead depth 12

  pub handle_put_object_tagging-Leads :
      (r : Request) → Leads open_phase answered (handle_put_object_tagging env r)
  unfolding handle_put_object_tagging
  handle_put_object_tagging-Leads r = search helpers_lead depth 12

  pub handle_get_object_tagging-Leads :
      (r : Request) → Leads open_phase answered (handle_get_object_tagging env r)
  unfolding handle_get_object_tagging
  handle_get_object_tagging-Leads r = search helpers_lead depth 12

  pub handle_delete_object_tagging-Leads :
      (r : Request) → Leads open_phase answered (handle_delete_object_tagging env r)
  unfolding handle_delete_object_tagging
  handle_delete_object_tagging-Leads r = search helpers_lead depth 12

pub ruleset handlers_lead = (
  handle_restore_object-Leads, handle_put_lifecycle-Leads, handle_get_lifecycle-Leads,
  handle_delete_lifecycle-Leads, handle_put_cors-Leads, handle_get_cors-Leads,
  handle_delete_cors-Leads, handle_put_logging-Leads, handle_get_logging-Leads,
  handle_delete_logging-Leads, handle_put_website-Leads, handle_get_website-Leads,
  handle_delete_website-Leads, handle_put_object_tagging-Leads, handle_get_object_tagging-Leads,
  handle_delete_object_tagging-Leads,
)
