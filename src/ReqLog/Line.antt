-- ===== src/ReqLog/Line.antt =====
-- The fields of a line of the request log.
use s3proxy4gcs.Base.{
  ℕ, ◌+◌, ◌≡◌, ◌≢◌, List, [], ◌∷◌, Text, All, Lacks, ℤ, pos, negsuc, decimal-All, join, split,
  split-Lacks, split-append, arith,
}
use s3proxy4gcs.ReqLog.{Record, format_int, separator, to_csv_line}

split-join :
    (b : ℕ) (p : Text) (ps : List Text)
    → All (Lacks b) (p ∷ ps)
    → split (join (p ∷ ps) (b ∷ [])) b ≡ p ∷ ps
unfolding join
split-join b p [] (h, hs) = split-Lacks b p h
split-join b p (q ∷ ps) (h, hs) =
    rw (split-append b p (join (q ∷ ps) (b ∷ [])) h, split-join b q ps hs)

format_int-Lacks : (n : ℤ) → Lacks separator (format_int n)
unfolding format_int
format_int-Lacks (pos n) = decimal-All (λ c. c ≢ separator) (λ d small. ground arith) n
format_int-Lacks (negsuc n) =
    (ground arith, decimal-All (λ c. c ≢ separator) (λ d small. ground arith) (n + 1))

-- The fields that are not numbers.
abbrev pub text_fields : Record → List Text
text_fields rec =
    rec.request_id ∷ rec.source_ip ∷ rec.http_method ∷ rec.api_method ∷ rec.bucket ∷ rec.access_key
    ∷ rec.g_uploader_upload_id ∷ []

-- If none of the seven text fields of a record holds U+0001, splitting its line of the request log
-- at U+0001 gives ten fields: the time, the request, the address of the client, the method of HTTP,
-- that of S3, the bucket, the key, the identifier of the upload, the status and the duration, in
-- this order and the numbers in decimal.
pub split-to_csv_line :
    (rec : Record)
    → All (Lacks separator) (text_fields rec)
    → split (to_csv_line rec) separator ≡ (
        format_int rec.timestamp_ms
        ∷ rec.request_id
        ∷ rec.source_ip
        ∷ rec.http_method
        ∷ rec.api_method
        ∷ rec.bucket
        ∷ rec.access_key
        ∷ rec.g_uploader_upload_id
        ∷ format_int rec.status_code
        ∷ format_int rec.duration_ms
        ∷ [])
unfolding to_csv_line
split-to_csv_line rec (id, (ip, (method, (api, (bucket, (key, (upload, _))))))) =
    split-join separator (format_int rec.timestamp_ms) _ (
      format_int-Lacks _,
      (
        id,
        (
          ip,
          (
            method,
            (api, (bucket, (key, (upload, (format_int-Lacks _, (format_int-Lacks _, tt)))))),
          ),
        ),
      ),
    )
