-- ===== src/Proxy/Transport.antt =====
-- main.go: the two reverse proxies, their transports and their pool of buffers, and what comes back
-- from a transport.
pub mod Isolated
pub mod Pool
use s3proxy4gcs.Base.{
  ℕ, ◌*◌, ◌%◌, Bool, true, false, Option, none, some, List, [], ◌∷◌, Text, Dict, codes, ℤ, pos,
  negsuc, is_positive, of_bits64, two_64, if◌then◌else◌,
}
use s3proxy4gcs.Config.{Settings}
use s3proxy4gcs.Proxy.Monad.{Plane, read_plane, write_plane}
use s3proxy4gcs.Proxy.Director.{Outgoing, modify_response}
use s3proxy4gcs.Translate.Cors.{second}

-- The fields of `http.Transport` that the source sets; the durations are in nanoseconds.
pub record Transport : Type 0 where
  pub max_idle_conns : ℤ
  pub max_idle_conns_per_host : ℤ
  pub idle_conn_timeout : ℤ
  pub response_header_timeout : ℤ
  pub tls_handshake_timeout : ℤ
  pub expect_continue_timeout : ℤ
  pub disable_compression : Bool
  pub force_attempt_http2 : Bool
  pub read_buffer_size : ℤ
  pub write_buffer_size : ℤ

pub data RoundTripper : Type 0 where
  dry_run_transport : RoundTripper
  http_transport : Transport → RoundTripper

-- The buffer size is that of the pool that both proxies share, where there is one.
pub record ReverseProxy : Type 0 where
  pub transport : RoundTripper
  pub flush_interval : ℤ
  pub buffer_size : Option ℤ

pub record Response : Type 0 where
  pub status_code : ℕ
  pub header : Dict Text
  pub body : Text
  pub request : Outgoing

-- `time.Duration(ms) * time.Millisecond` for a positive number, in int64.
unfoldable pub milliseconds : ℕ → ℤ
milliseconds ms = of_bits64 (ms * 1000000 % two_64)

module _ (settings : Settings) where
  unfoldable pub new_base_transport : ℤ → ℤ → Transport
  new_base_transport read_buf write_buf = record {
    max_idle_conns = settings.max_idle_conns;
    max_idle_conns_per_host = settings.max_idle_conns_per_host;
    idle_conn_timeout = settings.idle_conn_timeout;
    response_header_timeout = settings.response_header_timeout;
    tls_handshake_timeout = pos (10 * second);
    expect_continue_timeout = pos second;
    disable_compression = true;
    force_attempt_http2 = true;
    read_buffer_size = read_buf;
    write_buffer_size = write_buf;
  }

  -- A negative interval flushes behind every write.
  unfoldable pub flush_interval : ℤ → ℤ
  flush_interval (negsuc n) = negsuc 0
  flush_interval (pos ms) = if is_positive (pos ms) then milliseconds ms else pos 0

  unfoldable pub buffer_pool : Option ℤ
  buffer_pool =
      if is_positive settings.proxy_buffer_size then some settings.proxy_buffer_size else none

  abbrev transport : ℤ → ℤ → RoundTripper
  transport read_buf write_buf =
      if settings.dry_run
      then dry_run_transport
      else http_transport (new_base_transport read_buf write_buf)

  unfoldable pub read_proxy : ReverseProxy
  unfolding new_base_transport flush_interval buffer_pool
  read_proxy = record {
    transport = transport settings.read_buffer_size (pos 0);
    flush_interval = flush_interval settings.flush_interval_ms;
    buffer_size = buffer_pool;
  }

  unfoldable pub write_proxy : ReverseProxy
  unfolding new_base_transport buffer_pool
  write_proxy = record {
    transport = transport (pos 0) settings.write_buffer_size;
    flush_interval = pos 0;
    buffer_size = buffer_pool;
  }

  abbrev pub proxy_of : Plane → ReverseProxy
  proxy_of read_plane = read_proxy
  proxy_of write_plane = write_proxy

-- `dryRunTransport.RoundTrip`.
unfoldable pub dry_run_round_trip : Outgoing → Response
dry_run_round_trip o = record {
  status_code = 200;
  header = [];
  body = codes "Successfully proxied to GCS (DryRun - no real hits).";
  request = o;
}

-- What `http.Transport` gets from the network is a parameter; `none` is its error.
module _ {N : Type 0} (send : Transport → Outgoing → N → Option Response × N) where
  unfoldable pub round_trip : RoundTripper → Outgoing → N → Option Response × N
  unfolding dry_run_round_trip
  round_trip dry_run_transport o n = (some (dry_run_round_trip o), n)
  round_trip (http_transport t) o n = send t o n

  abbrev modified : Option Response → Option Response
  modified none = none
  modified (some resp) = some (record resp { header = modify_response resp.header })

  -- From the request that the director leaves to the response behind `ModifyResponse`.
  unfoldable pub exchange : Settings → Plane → Outgoing → N → Option Response × N
  unfolding round_trip
  exchange settings plane o n =
      let (resp, n') = round_trip (proxy_of settings plane).transport o n in (modified resp, n')
