-- ===== src/Proxy/Monad.antt =====
-- A handler as a computation over the response that it writes, the metrics that it counts and the
-- storage service. An early `return` stops the computation.
use Prim.Native.String.{String}
use s3proxy4gcs.Base.{
  ℕ, Bool, true, false, Option, none, some, List, [], ◌∷◌, ◌++◌, Text, Dict, insert,
}
use s3proxy4gcs.Http.{Request}
use s3proxy4gcs.Translate.S3.{
  LifecycleConfiguration, CorsConfiguration, BucketLoggingStatus, WebsiteConfiguration, Tagging,
}
use s3proxy4gcs.Translate.Lifecycle.{Error}

-- What a handler writes behind the header. A message is a text, or a format with its argument;
-- `lifecycle_error` is an S3 error with the code InvalidRequest and the text of the error;
-- `disabled_endpoint` is the text that an endpoint which is switched off answers.
pub data BodyPart : Type 0 where
  s3_error : String → String → BodyPart
  s3_error_named : String → String → String → BodyPart
  s3_error_about : String → String → Text → BodyPart
  lifecycle_error : Error → BodyPart
  lifecycle_xml : LifecycleConfiguration → BodyPart
  cors_xml : CorsConfiguration → BodyPart
  logging_xml : BucketLoggingStatus → BodyPart
  website_xml : WebsiteConfiguration → BodyPart
  tagging_xml : Tagging → BodyPart
  disabled_endpoint : String → BodyPart
  literal : String → BodyPart

pub data Metric : Type 0 where
  feature_disabled_rejection : String → Metric
  hmac_credential_lookup : String → Metric
  gcs_api_duration : String → Metric
  gcs_error : String → String → Metric

-- `readProxy` and `writeProxy`.
pub data Plane : Type 0 where
  read_plane write_plane : Plane

-- The response writer, the metrics in the order of their recording, the request that was handed
-- to a reverse proxy, and the storage service.
pub record State (W : Type 0) : Type 0 where
  pub header : Dict Text
  pub status : Option ℕ
  pub body : List BodyPart
  pub metrics : List Metric
  pub forwarded : Option (Plane × Request)
  pub world : W

pub data Flow (A : Type 0) : Type 0 where
  next : A → Flow A
  stop : Flow A

abbrev pub M : Type 0 → Type 0 → Type 0
M W A = State W → Flow A × State W

module _ {W A : Type 0} where
  unfoldable pub pure : A → M W A
  pure a s = (next a, s)

  -- `return`, out of the handler.
  unfoldable pub leave : M W A
  leave s = (stop, s)

abbrev pub first_status : Option ℕ → ℕ → Option ℕ
first_status none code = some code
first_status (some c) code = some c

module _ {W : Type 0} where
  unfoldable pub modify : (State W → State W) → M W (Unit {0})
  modify f s = (next tt, f s)

  unfoldable pub set_header : Text → Text → M W (Unit {0})
  unfolding modify
  set_header k v = modify λ s. record s { header = insert k v s.header }

  -- `w.WriteHeader(code)`: a second call changes nothing.
  unfoldable pub write_header : ℕ → M W (Unit {0})
  unfolding modify
  write_header code = modify λ s. record s { status = first_status s.status code }

  -- A write behind the header.
  unfoldable pub write : BodyPart → M W (Unit {0})
  unfolding modify
  write part = modify λ s. record s { body = s.body ++ (part ∷ []) }

  unfoldable pub observe : Metric → M W (Unit {0})
  unfolding modify
  observe m = modify λ s. record s { metrics = s.metrics ++ (m ∷ []) }

  -- A read of the storage service, and an update of it.
  unfoldable pub asks : {A : Type 0} → (W → A) → M W A
  asks f s = (next (f s.world), s)

  unfoldable pub updates : {A : Type 0} → (W → A × W) → M W A
  updates f s = let (a, world) = f s.world in (next a, record s { world = world })

abbrev pub continue : {W A B : Type 0} → Flow A → (A → M W B) → M W B
continue (next a) f s = f a s
continue stop f s = (stop, s)

infixl 5 ◌>>=◌ ◌>>◌
-- Opening this opens the actions too.
unfoldable pub ◌>>=◌ : {W A B : Type 0} → M W A → (A → M W B) → M W B
unfolding pure leave modify set_header write_header write observe asks updates
◌>>=◌ m f s = let (flow, s') = m s in continue flow f s'

abbrev pub ◌>>◌ : {W B : Type 0} → M W (Unit {0}) → M W B → M W B
m >> k = m >>= λ _. k

module _ {W : Type 0} where
  -- `if b { m; return }`.
  unfoldable pub return_if : Bool → M W (Unit {0}) → M W (Unit {0})
  unfolding ◌>>=◌
  return_if true m = m >> leave
  return_if false m = pure tt

  -- `if !b { m }`.
  unfoldable pub unless : Bool → M W (Unit {0}) → M W (Unit {0})
  unfolding ◌>>=◌
  unless true m = pure tt
  unless false m = m
