-- ===== src/Tests/Requests.antt =====
-- Requests at the gates and at the dispatch.
use mathlib.Core.Option.{some-ne-none}
use s3proxy4gcs.Base.{
  sym, ◌∙◌, ◌≡◌, refl, inl, false, none, some, [], ◌∷◌, codes, text_eq, after_first, cut, contains,
}
use s3proxy4gcs.Http.{get, put, Request, get_header}
use s3proxy4gcs.Proxy.StorageClass.{translate_s3_storage_class}
use s3proxy4gcs.CredStore.{find, size, extract_access_key, extract_access_key_from_query}
use s3proxy4gcs.Proxy.Monad.{Plane, read_plane, ◌>>=◌, return_if}
use s3proxy4gcs.Proxy.Credentials.{request_key, validate_client_credential}
use s3proxy4gcs.Proxy.Dispatch.{plane_of, has_query_param, handle_s3_request}
use s3proxy4gcs.Proxy.Rules.Answers.{IsIn, open_phase}
use s3proxy4gcs.Proxy.Answers.Gate.{
  IsAdmitted, IsRefusal, handle_s3_request-forwarded, handle_s3_request-refused,
}
use s3proxy4gcs.Proxy.Answers.Unsupported.{IsBadRequest, handle_s3_request-unsupported}
use s3proxy4gcs.Proxy.Safety.ReadOnly.{handle_s3_request-read_only}
use s3proxy4gcs.Tests.Sample.{
  one_client, nobody, env_of, monthly, fresh, signed, lifecycle_of_bucket, object_of_bucket,
  access_key, secret_key,
}

pub fresh-IsIn : IsIn open_phase fresh
fresh-IsIn = record { status_out = refl; not_forwarded = refl }

abbrev pub admitted_request : Request
admitted_request = record (object_of_bucket get signed) {
  resolved_creds = some (record { access_key_id = access_key; secret_access_key = secret_key });
}

pub goes_through :
    (handle_s3_request
      (env_of false one_client none)
      (object_of_bucket get signed)
      fresh).1.forwarded
    ≡ some (read_plane, admitted_request)
unfolding handle_s3_request ◌>>=◌ size validate_client_credential extract_access_key text_eq
    get_header after_first cut find return_if contains has_query_param
goes_through = refl

handle_s3_request-forwarded_example :
    IsAdmitted one_client (object_of_bucket get signed) admitted_request
    × (read_plane ≡ plane_of get)
handle_s3_request-forwarded_example =
    handle_s3_request-forwarded (env_of false one_client none) (object_of_bucket get signed) fresh
      fresh-IsIn (unfold size in refl) read_plane admitted_request goes_through

unsigned_key : request_key (lifecycle_of_bucket put []) ≡ none
unfolding request_key extract_access_key text_eq get_header extract_access_key_from_query
unsigned_key = refl

handle_s3_request-refused_example :
    IsRefusal fresh
      (handle_s3_request (env_of false one_client none) (lifecycle_of_bucket put []) fresh).1
handle_s3_request-refused_example =
    handle_s3_request-refused (env_of false one_client none) (lifecycle_of_bucket put []) fresh
      fresh-IsIn (unfold size in refl) (unfold size in refl)
      λ ak e. absurd (some-ne-none ak (sym e ∙ unsigned_key))

handle_s3_request-read_only_example :
    ((handle_s3_request (env_of false nobody none) (object_of_bucket get []) fresh).1.world
      ≡ monthly)
    × ((p : Plane) (r' : Request)
        → (handle_s3_request (env_of false nobody none) (object_of_bucket get []) fresh).1.forwarded
          ≡ some (p, r')
        → (p ≡ read_plane) × (r'.method ≡ get))
handle_s3_request-read_only_example =
    handle_s3_request-read_only (env_of false nobody none) (object_of_bucket get []) fresh
      fresh-IsIn (inl refl)

abbrev cold_put : Request
cold_put = object_of_bucket put ((codes "x-amz-storage-class", codes "COLD") ∷ [])

handle_s3_request-unsupported_example :
    IsBadRequest fresh (handle_s3_request (env_of false nobody none) cold_put fresh).1
handle_s3_request-unsupported_example =
    handle_s3_request-unsupported (env_of false nobody none) cold_put fresh refl
      (unfold size in refl) (inl (unfold get_header translate_s3_storage_class text_eq in refl))
