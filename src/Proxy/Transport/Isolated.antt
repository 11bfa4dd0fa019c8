-- ===== src/Proxy/Transport/Isolated.antt =====
-- A dry run keeps everything inside of the proxy.
use Prim.Native.String.{String}
use s3proxy4gcs.Base.{ℕ, ◌≡◌, refl, true, Option, some, [], codes, lookup}
use s3proxy4gcs.Config.{Settings}
use s3proxy4gcs.Http.{Request, get_header}
use s3proxy4gcs.Proxy.Monad.{State, M, Plane, read_plane, write_plane}
use s3proxy4gcs.Proxy.Client.{Env}
use s3proxy4gcs.Proxy.Ops.{health, readyz, readyz_handler, answer, feature_disabled_404}
use s3proxy4gcs.Proxy.Rules.World.{Reads, reads_rules, write_header-Reads}
use s3proxy4gcs.Proxy.Safety.DryRun.{handle_s3_request-dry_run}
use s3proxy4gcs.Proxy.Director.{Outgoing}
use s3proxy4gcs.Proxy.Server.{Router, serve}
use s3proxy4gcs.Proxy.Server.Routed.{IsRouter, serve-Holds}
use s3proxy4gcs.Proxy.Transport.{
  Transport, Response, dry_run_round_trip, exchange, round_trip, read_proxy, write_proxy,
}
use s3proxy4gcs.Proxy.Director.{modify_response}

module _ {N : Type 0} (send : Transport → Outgoing → N → Option Response × N) where
  exchange-dry_run :
      (settings : Settings) (plane : Plane) (o : Outgoing) (n : N)
      → settings.dry_run ≡ true
      → exchange send settings plane o n ≡ (
        some (record {
          status_code = 200;
          header = [];
          body = codes "Successfully proxied to GCS (DryRun - no real hits).";
          request = o;
        }),
        n,
      )
  unfolding exchange round_trip read_proxy write_proxy dry_run_round_trip modify_response get_header
      lookup
  exchange-dry_run settings read_plane o n dry = rw dry refl
  exchange-dry_run settings write_plane o n dry = rw dry refl

module _ {W : Type 0} where
  feature_disabled_404-Reads : (feature : String) → Reads {W = W} (feature_disabled_404 feature)
  unfolding feature_disabled_404
  feature_disabled_404-Reads feature = search reads_rules depth 12

  answer-Reads : (code : ℕ) (text : String) → Reads {W = W} (answer code text)
  unfolding answer
  answer-Reads code text = search reads_rules depth 12

  health-Reads : (env : Env W) → Reads (health env)
  unfolding health
  health-Reads env = search (reads_rules, feature_disabled_404-Reads, answer-Reads) depth 12

  readyz_handler-Reads : (env : Env W) → Reads (readyz_handler env)
  unfolding readyz_handler
  readyz_handler-Reads env = search (reads_rules, answer-Reads) depth 20

  readyz-Reads : (env : Env W) → Reads (readyz env)
  unfolding readyz
  readyz-Reads env = search (reads_rules, feature_disabled_404-Reads, readyz_handler-Reads) depth 12

  -- In a dry run nothing leaves the proxy, if the router picks only routes that are registered for
  -- the method and the page of /metrics changes nothing: no request of any path and method makes
  -- the proxy call the storage service for a change; and whatever is handed to either of the reverse
  -- proxies is answered with the status 200, no headers and the text "Successfully proxied to GCS
  -- (DryRun - no real hits).", and the network is left as it was.
  pub serve-dry_run :
      {N : Type 0} (send : Transport → Outgoing → N → Option Response × N) (chi : Router W)
      → IsRouter chi
      → (env : Env W) → env.settings.dry_run ≡ true
      → (scrape : M W (Unit {0})) → Reads scrape
      → (r : Request) (s : State W)
      → ((serve chi env scrape r s).1.world ≡ s.world)
        × ((plane : Plane) (o : Outgoing) (n : N)
            → exchange send env.settings plane o n ≡ (
              some (record {
                status_code = 200;
                header = [];
                body = codes "Successfully proxied to GCS (DryRun - no real hits).";
                request = o;
              }),
              n,
            ))
  serve-dry_run send chi law env dry scrape scraped r s = (
    serve-Holds chi law env scrape r (λ m. (m s).1.world ≡ s.world)
        (record {
          of_scrape = scraped.at s;
          of_disabled = λ feature. (feature_disabled_404-Reads feature).at s;
          of_health = (health-Reads env).at s;
          of_readyz = (readyz-Reads env).at s;
          of_s3 = handle_s3_request-dry_run env dry r s;
          of_refusal = λ code. (write_header-Reads code).at s;
        }),
    λ plane o n. exchange-dry_run send env.settings plane o n dry,
  )
