-- ===== src/ReqLog/Entry.antt =====
-- pkg/reqlog/reqlog.go: the record that `Middleware` logs of a request, once it has been handled.
use s3proxy4gcs.Base.{ℤ, Option, Text, Dict, codes}
use s3proxy4gcs.Http.{Method, get, head, put, post, delete, other_method, Request}
use s3proxy4gcs.ReqLog.{
  Record, extract_source_ip, extract_bucket, extract_access_key, extract_g_uploader_upload_id,
}
use s3proxy4gcs.ReqLog.Operation.{infer_api_method}

abbrev method_text : Method → Text
method_text get = codes "GET"
method_text head = codes "HEAD"
method_text put = codes "PUT"
method_text post = codes "POST"
method_text delete = codes "DELETE"
method_text (other_method m) = m

-- `net.SplitHostPort`, the id of the request and the times are parameters; `header` and `status`
-- are those of the response.
unfoldable pub entry : (Text → Option Text) → Text → ℤ → ℤ → Dict Text → ℤ → Request → Record
entry split_host_port request_id start_ms duration_ms header status r = record {
  timestamp_ms = start_ms;
  request_id = request_id;
  source_ip = extract_source_ip split_host_port r;
  http_method = method_text r.method;
  api_method = codes (infer_api_method r);
  bucket = extract_bucket r;
  access_key = extract_access_key r;
  g_uploader_upload_id = extract_g_uploader_upload_id header;
  status_code = status;
  duration_ms = duration_ms;
}
