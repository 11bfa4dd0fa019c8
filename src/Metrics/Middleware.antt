-- ===== src/Metrics/Middleware.antt =====
-- `WithMetrics` of pkg/metrics/metrics.go: what the middleware records of a request, before the
-- handler and behind it, and a server that handles requests side by side. The collectors are the
-- list of what is recorded; durations are left out.
pub mod InFlight
use Prim.Native.String.{String}
use s3proxy4gcs.Base.{ℕ, ◌+◌, Bool, Option, none, some, List, [], ◌∷◌, ◌++◌, ◌≡◌, Text, codes}
use s3proxy4gcs.Http.{Method}
use s3proxy4gcs.Metrics.{classify_gcs_error}
use s3proxy4gcs.Metrics.Endpoint.{classify_endpoint}
use s3proxy4gcs.Metrics.Writer.{Counting, observed_status}

-- A label is a text: the endpoint, the class of an error.
pub data Observation : Type 0 where
  in_flight_inc in_flight_dec : Text → Observation
  bytes_received bytes_sent request_size response_size : Method → Text → ℕ → Observation
  requests_total : Method → Text → ℕ → Observation
  errors_total : Text → Text → Observation

-- A request that is being handled, with its label.
pub record Open : Type 0 where
  pub method : Method
  pub endpoint : Text

-- `countingReadCloser.Read`: `n` bytes were read.
unfoldable pub counting_read : ℕ → ℕ → ℕ
counting_read n count = count + n

unfoldable pub open_request : Method → Text → Open
open_request method uri = record {
  method = method;
  endpoint = codes (classify_endpoint method uri);
}

-- Before the handler.
unfoldable pub begin : Open → List Observation
begin r = in_flight_inc r.endpoint ∷ []

abbrev pub error_class : Text → Option String → List Observation
error_class endpoint none = []
error_class endpoint (some class) = errors_total endpoint (codes class) ∷ []

-- The deferred function, which runs whether the handler returns or panics.
unfoldable pub finish : {S : Type 0} → Open → ℕ → Bool → Counting S → List Observation
finish r req_bytes panicked w =
    let status = observed_status panicked w in
    in_flight_dec r.endpoint
    ∷ bytes_received r.method r.endpoint req_bytes
    ∷ bytes_sent r.method r.endpoint w.bytes
    ∷ request_size r.method r.endpoint req_bytes
    ∷ response_size r.method r.endpoint w.bytes
    ∷ requests_total r.method r.endpoint status
    ∷ error_class r.endpoint (classify_gcs_error status)

-- The requests that are being handled, and what has been recorded.
pub record Server : Type 0 where
  pub open_requests : List Open
  pub observations : List Observation

abbrev pub idle_server : Server
idle_server = record { open_requests = []; observations = [] }

abbrev pub arrived : Open → Server → Server
arrived r s = record {
  open_requests = r ∷ s.open_requests;
  observations = s.observations ++ begin r;
}

-- A request arrives, or one of those that are being handled, whichever it is, is done.
pub data Step (S : Type 0) : Server → Server → Type 0 where
  arrive :
      (s : Server) (method : Method) (uri : Text) → Step S s (arrived (open_request method uri) s)
  depart :
      (before after : List Open) (r : Open) (obs : List Observation) (req_bytes : ℕ)
      (panicked : Bool) (w : Counting S)
      → Step S
          (record { open_requests = before ++ r ∷ after; observations = obs })
          (record {
            open_requests = before ++ after;
            observations = obs ++ finish r req_bytes panicked w;
          })

pub data Reachable (S : Type 0) : Server → Type 0 where
  here : Reachable S idle_server
  next : {s t : Server} → Reachable S s → Step S s t → Reachable S t
