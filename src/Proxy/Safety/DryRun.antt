-- ===== src/Proxy/Safety/DryRun.antt =====
-- In a dry run no handler sends an update to the storage service.
use s3proxy4gcs.Base.{◌≡◌, true}
use s3proxy4gcs.Http.{Request}
use s3proxy4gcs.Proxy.Client.{Env}
use s3proxy4gcs.Proxy.Monad.{State}
use s3proxy4gcs.Proxy.Rules.World.{Reads, stopped-Reads}
use s3proxy4gcs.Proxy.Rules.Helpers.{helpers_read}
use s3proxy4gcs.Proxy.Lifecycle.{handle_put_lifecycle, handle_delete_lifecycle}
use s3proxy4gcs.Proxy.Cors.{handle_put_cors, handle_delete_cors}
use s3proxy4gcs.Proxy.Logging.{handle_put_logging, handle_delete_logging}
use s3proxy4gcs.Proxy.Website.{handle_put_website, handle_delete_website}
use s3proxy4gcs.Proxy.Tagging.{handle_put_object_tagging, handle_delete_object_tagging}
use s3proxy4gcs.Proxy.Dispatch.{
  control_plane, restore_block, checks, admitted, handle_s3_request, lifecycle_block, cors_block,
  logging_block, website_block, tagging_block,
}
use s3proxy4gcs.Proxy.Safety.Handlers.{
  translated-Reads, warn_dropped-Reads, handle_get_lifecycle-Reads, handle_get_cors-Reads,
  handle_get_logging-Reads, handle_get_website-Reads, handle_get_object_tagging-Reads,
  handle_restore_object-Reads, gates_read,
}

ruleset dry_rules = (stopped-Reads, helpers_read)

module _ {W : Type 0} (env : Env W) (dry : env.settings.dry_run ≡ true) where
  handle_put_lifecycle-Reads : (r : Request) → Reads (handle_put_lifecycle env r)
  unfolding handle_put_lifecycle
  handle_put_lifecycle-Reads r = search (translated-Reads, dry_rules) depth 10

  handle_delete_lifecycle-Reads : (r : Request) → Reads (handle_delete_lifecycle env r)
  unfolding handle_delete_lifecycle
  handle_delete_lifecycle-Reads r = search dry_rules depth 10

  handle_put_cors-Reads : (r : Request) → Reads (handle_put_cors env r)
  unfolding handle_put_cors
  handle_put_cors-Reads r = search (warn_dropped-Reads, dry_rules) depth 10

  handle_delete_cors-Reads : (r : Request) → Reads (handle_delete_cors env r)
  unfolding handle_delete_cors
  handle_delete_cors-Reads r = search dry_rules depth 10

  handle_put_logging-Reads : (r : Request) → Reads (handle_put_logging env r)
  unfolding handle_put_logging
  handle_put_logging-Reads r = search dry_rules depth 10

  handle_delete_logging-Reads : (r : Request) → Reads (handle_delete_logging env r)
  unfolding handle_delete_logging
  handle_delete_logging-Reads r = search dry_rules depth 10

  handle_put_website-Reads : (r : Request) → Reads (handle_put_website env r)
  unfolding handle_put_website
  handle_put_website-Reads r = search dry_rules depth 10

  handle_delete_website-Reads : (r : Request) → Reads (handle_delete_website env r)
  unfolding handle_delete_website
  handle_delete_website-Reads r = search dry_rules depth 10

  handle_put_object_tagging-Reads : (r : Request) → Reads (handle_put_object_tagging env r)
  unfolding handle_put_object_tagging
  handle_put_object_tagging-Reads r = search dry_rules depth 10

  handle_delete_object_tagging-Reads : (r : Request) → Reads (handle_delete_object_tagging env r)
  unfolding handle_delete_object_tagging
  handle_delete_object_tagging-Reads r = search dry_rules depth 10

  lifecycle_block-Reads : (r : Request) → Reads (lifecycle_block env r)
  unfolding lifecycle_block
  lifecycle_block-Reads r =
      search
        (
          handle_put_lifecycle-Reads, handle_get_lifecycle-Reads, handle_delete_lifecycle-Reads,
          helpers_read,
        )
        depth 10

  cors_block-Reads : (r : Request) → Reads (cors_block env r)
  unfolding cors_block
  cors_block-Reads r =
      search (handle_put_cors-Reads, handle_get_cors-Reads, handle_delete_cors-Reads, helpers_read)
        depth 10

  logging_block-Reads : (r : Request) → Reads (logging_block env r)
  unfolding logging_block
  logging_block-Reads r =
      search
        (
          handle_put_logging-Reads, handle_get_logging-Reads, handle_delete_logging-Reads,
          helpers_read,
        )
        depth 10

  website_block-Reads : (r : Request) → Reads (website_block env r)
  unfolding website_block
  website_block-Reads r =
      search
        (
          handle_put_website-Reads, handle_get_website-Reads, handle_delete_website-Reads,
          helpers_read,
        )
        depth 10

  tagging_block-Reads : (r : Request) → Reads (tagging_block env r)
  unfolding tagging_block
  tagging_block-Reads r =
      search
        (
          handle_put_object_tagging-Reads, handle_get_object_tagging-Reads,
          handle_delete_object_tagging-Reads, helpers_read,
        )
        depth 10

  restore_block-Reads : (r : Request) → Reads (restore_block env r)
  unfolding restore_block
  restore_block-Reads r = search (handle_restore_object-Reads, helpers_read) depth 10

  control_plane-Reads : (r : Request) → Reads (control_plane env r)
  unfolding control_plane
  control_plane-Reads r =
      search
        (
          lifecycle_block-Reads, cors_block-Reads, logging_block-Reads, website_block-Reads,
          tagging_block-Reads, restore_block-Reads, helpers_read,
        )
        depth 10

  checks-Reads : (r : Request) → Reads (checks env r)
  unfolding checks
  checks-Reads r = search (control_plane-Reads, gates_read) depth 10

  admitted-Reads : (r : Request) → Reads (admitted env r)
  unfolding admitted
  admitted-Reads r = search (checks-Reads, gates_read)

  dry_request-Reads : (request : Request) → Reads (handle_s3_request env request)
  unfolding handle_s3_request
  dry_request-Reads request = search (admitted-Reads, gates_read)

-- In a dry run, no request changes the storage service, whatever its method, its parameters and
-- its body, and whatever the response is.
pub handle_s3_request-dry_run :
    {W : Type 0} (env : Env W)
    → env.settings.dry_run ≡ true
    → (r : Request) (s : State W) → (handle_s3_request env r s).1.world ≡ s.world
handle_s3_request-dry_run env dry r s = (dry_request-Reads env dry r).at s
