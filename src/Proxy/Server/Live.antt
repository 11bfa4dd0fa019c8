-- ===== src/Proxy/Server/Live.antt =====
-- The whole server, from the environment of the process to the answer of a request, while the file
-- of credentials is reloaded.
use s3proxy4gcs.Base.{◌≡◌, false, Bool, some, List, Option, Text, Dict}
use s3proxy4gcs.Base.Result.{ok}
use s3proxy4gcs.Config.{Settings}
use s3proxy4gcs.Config.Env.{Environment}
use s3proxy4gcs.Config.Load.{load_config}
use s3proxy4gcs.Http.{Credentials, Request}
use s3proxy4gcs.CredStore.{find}
use s3proxy4gcs.CredStore.Watch.{Event}
use s3proxy4gcs.Proxy.Monad.{State, M, Plane}
use s3proxy4gcs.Proxy.Client.{Env}
use s3proxy4gcs.Proxy.Credentials.{request_key}
use s3proxy4gcs.Proxy.Rules.Answers.{IsIn, open_phase, answered, Leads}
use s3proxy4gcs.Proxy.Answers.Settled.{IsSettled}
use s3proxy4gcs.Proxy.Director.{Outgoing, Url, Signer, director}
use s3proxy4gcs.Proxy.Director.Prepared.{IsSigned}
use s3proxy4gcs.Proxy.Startup.{store_after}
use s3proxy4gcs.Proxy.Startup.Reloaded.{handle_s3_request-reloaded}
use s3proxy4gcs.Proxy.Startup.Live.{director-handle_s3_request}
use s3proxy4gcs.Proxy.Server.{Router, serve}
use s3proxy4gcs.Proxy.Server.Routed.{IsRouter, serve-IsSettled, serve-forwarded}

module _ {W : Type 0} (unmarshal : Text → Option (Dict Text)) (read_file : Text → Option Text)
    (vars : Environment) (settings : Settings) (creates adds : Bool) (chi : Router W)
    (law : IsRouter chi) (env : Env W) (scrape : M W (Unit {0})) (r : Request) (s : State W)
    (open_s : IsIn open_phase s) (scraped : Leads open_phase answered scrape)
    (loaded : load_config unmarshal read_file vars ≡ ok settings) where
  -- If the environment of the process loads to a configuration, the router picks only routes that
  -- are registered for the method of the request, and the page of /metrics is an answer that
  -- forwards nothing, then every request, of any path and method, is answered by the proxy or
  -- handed to a reverse proxy, and never both: whatever the watcher of the credential file has
  -- received before each of the times that the handler reads the store, and whether or not that
  -- watcher could start.
  pub serve-reloaded :
      (at_gate at_validation : List Event)
      → env.store_at_gate ≡ store_after unmarshal settings creates adds at_gate
      → env.store_at_validation ≡ store_after unmarshal settings creates adds at_validation
      → IsSettled (serve chi env scrape r s).1
  serve-reloaded at_gate at_validation gate validation =
      serve-IsSettled chi law env scrape r s open_s scraped (
        handle_s3_request-reloaded unmarshal read_file vars settings creates adds env r s at_gate
          at_validation loaded gate validation open_s)

  -- If the environment of the process loads to a configuration that is to reach the storage service
  -- (no dry run), the router picks only routes that are registered for the method of the request,
  -- the page of /metrics is an answer that forwards nothing, and the request finds at the gate the
  -- store of a server whose watcher has received any events at all, then whatever the server
  -- forwards, the director signs with the secret that the store has for the client's own key when
  -- it is looked up.
  pub director-serve :
      settings.dry_run ≡ false
      → (at_gate : List Event)
      → env.store_at_gate ≡ store_after unmarshal settings creates adds at_gate
      → (p : Plane) (r' : Request) → (serve chi env scrape r s).1.forwarded ≡ some (p, r')
      → (url : Url) (encode : Dict Text → Text) (md5_base64 : Text → Text) (sign_http : Signer)
        (o : Outgoing)
      → o.request.resolved_creds ≡ r'.resolved_creds
      → (creds : Credentials) × (request_key r ≡ some creds.access_key_id)
        × (find env.store_at_lookup creds.access_key_id ≡ some creds.secret_access_key)
        × IsSigned settings url encode md5_base64 sign_http
            (some creds)
            o
            (director settings url encode md5_base64 sign_http o)
  director-serve live at_gate gate p r' sent url encode md5_base64 sign_http o same =
      director-handle_s3_request unmarshal read_file vars settings creates adds env r s at_gate
        loaded live gate open_s p r'
        (serve-forwarded chi law env scrape r s open_s scraped p r' sent) url encode md5_base64
        sign_http o same
