-- ===== src/Proxy/Startup/Live.antt =====
-- From the environment of the process to the signature of a request.
use s3proxy4gcs.Base.{◌≡◌, refl, ap, ◌∙◌, false, some, Option, Text, Dict, List, Bool, ◌==◌}
use mathlib.Core.Path.{subst}
use s3proxy4gcs.Base.Result.{ok}
use s3proxy4gcs.Config.{Settings}
use s3proxy4gcs.Config.Env.{Environment}
use s3proxy4gcs.Config.Load.{load_config}
use s3proxy4gcs.Http.{Credentials, Request}
use s3proxy4gcs.CredStore.{size, find}
use s3proxy4gcs.Proxy.Monad.{State, Plane}
use s3proxy4gcs.Proxy.Client.{Env}
use s3proxy4gcs.Proxy.Credentials.{request_key}
use s3proxy4gcs.Proxy.Dispatch.{handle_s3_request}
use s3proxy4gcs.Proxy.Answers.Gate.{handle_s3_request-forwarded}
use s3proxy4gcs.Proxy.Rules.Answers.{IsIn, open_phase}
use s3proxy4gcs.Proxy.Director.{Outgoing, Url, Signer, signing_credentials, director}
use s3proxy4gcs.Proxy.Director.Prepared.{IsSigned, director-IsSigned}
use s3proxy4gcs.CredStore.Watch.{Event}
use s3proxy4gcs.Proxy.Startup.{store_after}
use s3proxy4gcs.Proxy.Startup.Reloaded.{store_after-size}

signing_credentials-resolved :
    (settings : Settings) (r : Request) (creds : Credentials)
    → r.resolved_creds ≡ some creds
    → signing_credentials settings r ≡ some creds
unfolding signing_credentials
signing_credentials-resolved settings r creds e = rw e refl

-- If the environment of the process loads to a configuration that is to reach the storage service,
-- and a request is handled that finds at its gate the store of a server whose watcher has received
-- any events at all, then whatever is forwarded is signed with the secret that the store has for the
-- client's own key when it is looked up, however the credentials are reloaded meanwhile.
pub director-handle_s3_request :
    {W : Type 0} (unmarshal : Text → Option (Dict Text)) (read_file : Text → Option Text)
    (vars : Environment) (settings : Settings) (creates adds : Bool) (env : Env W) (r : Request)
    (s : State W) (at_gate : List Event)
    → load_config unmarshal read_file vars ≡ ok settings
    → settings.dry_run ≡ false
    → env.store_at_gate ≡ store_after unmarshal settings creates adds at_gate
    → IsIn open_phase s
    → (p : Plane) (r' : Request) → (handle_s3_request env r s).1.forwarded ≡ some (p, r')
    → (url : Url) (encode : Dict Text → Text) (md5_base64 : Text → Text) (sign_http : Signer)
      (o : Outgoing)
    → o.request.resolved_creds ≡ r'.resolved_creds
    → (creds : Credentials) × (request_key r ≡ some creds.access_key_id)
      × (find env.store_at_lookup creds.access_key_id ≡ some creds.secret_access_key)
      × IsSigned settings url encode md5_base64 sign_http
          (some creds)
          o
          (director settings url encode md5_base64 sign_http o)
director-handle_s3_request unmarshal read_file vars settings creates adds env r s at_gate loaded
      live seeded h p r' sent url encode md5_base64 sign_http o same =
    let on =
      ap (λ st. size st == 0) seeded
      ∙ store_after-size unmarshal read_file vars settings loaded creates adds at_gate live in
    let admission = (handle_s3_request-forwarded env r s h on p r' sent).0 in
    let creds : Credentials = record {
      access_key_id = admission.access_key;
      secret_access_key = admission.secret_key;
    } in
    let resolved = same ∙ ap (λ q. q.resolved_creds) admission.with_creds in
    (
      creds,
      admission.key_found,
      admission.secret_found,
      subst
          (λ c.
            IsSigned settings url encode md5_base64 sign_http c o
              (director settings url encode md5_base64 sign_http o))
          (signing_credentials-resolved settings o.request creds resolved)
          (director-IsSigned settings url encode md5_base64 sign_http o),
    )
