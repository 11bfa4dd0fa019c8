-- ===== src/Metrics.antt =====
-- pkg/metrics/metrics.go: the class of a status code.
pub mod Endpoint
pub mod Writer
pub mod Middleware
use Prim.Native.String.{String}
use s3proxy4gcs.Base.{ℕ, ◌&&◌, Option, none, some, leb, ltb, ◌==◌, if◌then◌else◌}

-- `ClassifyGCSError`; the empty text is `none`.
unfoldable pub classify_gcs_error : ℕ → Option String
classify_gcs_error status_code =
    if status_code == 429
    then some "429"
    else if leb 500 status_code && ltb status_code 600
    then some "5xx"
    else if leb 400 status_code && ltb status_code 500
    then some "4xx"
    else none
