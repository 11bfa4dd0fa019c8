-- ===== src/Proxy/Credentials.antt =====
-- `validateClientCredential` of main.go.
use s3proxy4gcs.Base.{Option, none, some, Text, codes, ◌==◌, if◌then◌else◌}
use s3proxy4gcs.Http.{Request, get_header}
use s3proxy4gcs.CredStore.{Store, size, find, extract_access_key, extract_access_key_from_query}
use s3proxy4gcs.Proxy.Monad.{hmac_credential_lookup, M, pure, leave, ◌>>◌, observe}
use s3proxy4gcs.Proxy.Helpers.{write_s3_error}
use s3proxy4gcs.Proxy.Client.{Env}

abbrev or_else : Option Text → Option Text → Option Text
or_else (some a) b = some a
or_else none b = b

-- The key of the header or, failing that, of the query.
unfoldable pub request_key : Request → Option Text
request_key r =
    or_else (extract_access_key (get_header r.header (codes "authorization")))
      (extract_access_key_from_query r.raw_query)

module _ {W : Type 0} where
  -- The request with the credentials that the lookup found.
  unfoldable pub resolve : Request → Text → Option Text → M W Request
  unfolding write_s3_error
  resolve r ak (some sk) = do
    observe (hmac_credential_lookup "hit")
    pure
        (record r { resolved_creds = some (record { access_key_id = ak; secret_access_key = sk }) })
  resolve r ak none = do
    observe (hmac_credential_lookup "miss")
    write_s3_error 403 "InvalidAccessKeyId"
        "The AWS Access Key Id you provided does not exist in our records."
    leave

  unfoldable pub look_up : Store → Request → Option Text → M W Request
  unfolding resolve
  look_up store r (some ak) = resolve r ak (find store ak)
  look_up store r none = do
    observe (hmac_credential_lookup "no_auth")
    write_s3_error 403 "AccessDenied" "Request is missing a valid SigV4 Authorization header."
    leave

  -- The request with its credentials; `ok = false` of the source is the end of the handler.
  unfoldable pub validate_client_credential : Env W → Request → M W Request
  unfolding look_up request_key
  validate_client_credential env r =
      if size env.store_at_validation == 0
      then (do observe (hmac_credential_lookup "disabled"); leave)
      else look_up env.store_at_lookup r (request_key r)
