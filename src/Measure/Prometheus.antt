-- ===== src/Measure/Prometheus.antt =====
-- e2e_tests/prometheus_collector.go: the collector that queries Prometheus for the metrics of the
-- pods. A time is in seconds, as `Unix()` gives it; what is only logged is left out.
pub mod Samples
pub mod Queries
pub mod Bounds
pub mod Deltas
pub mod Unreachable
use Prim.Native.String.{String}
use s3proxy4gcs.Base.{
  ℕ, ◌+◌, Bool, true, false, ◌&&◌, ◌||◌, not, Option, none, some, List, [], ◌∷◌, ◌++◌, length, ◌==◌,
  Text, Dict, codes, text_eq, lookup, insert, is_nil, decimal, trim_left, reverse, if◌then◌else◌,
}
use s3proxy4gcs.Base.Result.{Result, ok, err, ◌>>=◌, ◌>>◌, ok_or}
use s3proxy4gcs.Measure.Number.{Float}

-- The errors of a query.
pub data QueryError : Type 0 where
  unreachable malformed unsuccessful : QueryError
  bad_status : ℕ → QueryError

-- A JSON value that stands for a sample: a string, or anything else.
pub data Json : Type 0 where
  text : Text → Json
  other : Json

-- `promResponse`: the status, and the raw result, empty where there is none.
pub record PromResponse : Type 0 where
  pub status : Text
  pub result : Text

-- `matrixEntry` and `vectorEntry`; the second part of a point is its value.
pub record MatrixEntry : Type 0 where
  pub metric : Dict Text
  pub values : List (Json × Json)

pub record VectorEntry : Type 0 where
  pub metric : Dict Text
  pub value : Json × Json

pub record PrometheusCollector : Type 0 where
  pub base_url : Text
  pub pod_selector : Text
  pub enabled : Bool

-- `NewPrometheusCollector`, given the variable PROMETHEUS_URL.
unfoldable pub new_prometheus_collector : Text → PrometheusCollector
new_prometheus_collector url =
    let base =
      if is_nil url
      then codes "http://monitoring-prometheus.monitoring.svc.cluster.local:9090"
      else url in
    record {
      base_url = reverse (trim_left (λ c. c == b'/') (reverse base));
      pod_selector = codes "namespace=\"s3proxy-e2e\",pod=~\"s3proxy-.*\"";
      enabled = true;
    }

-- What net/http and encoding/json do: the answer to a GET is a status and a body, which may fail to
-- be read; `N` is what the client talks to.
pub record Client (N : Type 0) : Type 0 where
  pub do_get : Text → N → Option (ℕ × Option Text) × N
  pub encode : Dict Text → Text
  pub decode_response : Text → Option PromResponse
  pub decode_matrix : Text → Option (List MatrixEntry)
  pub decode_vector : Text → Option (List VectorEntry)

module _ {N : Type 0} (cl : Client N) where
  unfoldable pub body_of : Option (ℕ × Option Text) → Result QueryError Text
  body_of none = err unreachable
  body_of (some (status, none)) = err unreachable
  body_of (some (status, some body)) = if status == 200 then ok body else err (bad_status status)

  -- `get`.
  unfoldable pub get : Text → N → Result QueryError Text × N
  unfolding body_of
  get url n = let (answer, n') = cl.do_get url n in (body_of answer, n')

  -- The raw result of a query that succeeded.
  unfoldable pub result_of : Text → Result QueryError Text
  result_of body = ok_or (cl.decode_response body) malformed >>= λ resp.
      if text_eq resp.status (codes "success") then ok resp.result else err unsuccessful

  -- A result, if there is one.
  unfoldable pub entries :
      {A : Type 0} → (Text → Option (List A)) → Text → Result QueryError (List A)
  entries decode result = if is_nil result then ok [] else ok_or (decode result) malformed
