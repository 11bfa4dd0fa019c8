-- ===== src/Lib.antt =====
-- A model of the proxy that serves the S3 API from Google Cloud Storage.
--
-- A request passes the credential gate, which looks the key of its signature up in the credential
-- store, then the checks for what GCS cannot do, then the handlers of the subresources (lifecycle,
-- cors, logging, website, tagging, restore), which translate an S3 configuration to one of GCS and
-- back and call the storage library. What is left goes to the reverse proxy of its method, whose
-- director readdresses it to GCS and signs it with the secret of the client's own key. Response
-- writers around the handler feed the metrics and the request log.
--
-- The files and the code:
--   Base            texts as lists of bytes (strings.Cut, Split, Trim, EqualFold), maps as
--                   association lists, int64 with its wrap-around, results that may be errors, and
--                   the loop over the segments of a query (Scan)
--   Translate       pkg/translate: S3 has the XML types of s3_*.go, Gcs the records of the storage
--                   library; Dates, Lifecycle, Cors, Logging, Website and Tagging have the functions
--                   of gcs_*.go under their own names in lower case
--   Translate/Lifecycle  TranslateS3ToGCSLifecycle; Reverse has TranslateGCSToS3Lifecycle, Json has
--                   TranslateS3ToGCS, StorageClass has mapStorageClass and reverseMapStorageClass
--   CredStore       pkg/credstore/credstore.go: the store, parse, ExtractAccessKey and
--                   ExtractAccessKeyFromQuery; CredStore/Watch has Watch and runWatcher, a machine
--                   over the events that its select receives
--   Config          config/settings.go: the records; Env has getEnv, getEnvBool and the numbers, Load
--                   has LoadConfig and loadHMACCredentials, with proofs in its children
--   Http            what the handlers read of net/http
--   Metrics         pkg/metrics/metrics.go: ClassifyGCSError; Endpoint has classifyEndpoint and
--                   hasQueryKey, Writer the countingResponseWriter and the statusRecorder,
--                   Middleware what WithMetrics records, and a server whose requests overlap
--   ReqLog          pkg/reqlog/reqlog.go: Record, ToCSVLine and the extracting functions; Operation
--                   has InferAPIMethod, Entry the record of the middleware, Cleanup cleanOldLogs
--   Proxy           main.go: Monad is a computation over the response, the metrics, the request
--                   that is handed on and the storage service, which an early return stops; Client
--                   is the interface of the storage library and of the XML codec; Helpers has
--                   writeS3Error, timeGCSCall, decodeControlPlaneXML and the others; Lifecycle,
--                   Cors, Logging, Website, Tagging and Restore have the handlers; Credentials has
--                   validateClientCredential and Dispatch handleS3Request; Director has the
--                   director and modifyResponse of main, Startup the seeding of the store and
--                   the start of its watcher, Ops /health and /readyz
--   Proxy/Server    the routes of main, and a request's way through http.ServeMux and chi; Live puts
--                   the whole together, from the environment to the signature
--   Proxy/Transport  the two reverse proxies and dryRunTransport; Pool has proxyBufferPool
--   Measure         the programs that measure the proxy. Pressure has the workers and the report of
--                   sdk_tests/go-v2/pressure/main.go, Prometheus e2e_tests/prometheus_collector.go,
--                   Scrape e2e_tests/metrics_collector.go, Framework e2e_tests/framework.go;
--                   Number is float64 as an interface
--   Proxy/Rules, Answers, Safety, Updates  the proofs about main.go
--   Tests           the theorems at concrete inputs
--
-- Bounds and fuel: the loops of ExtractAccessKeyFromQuery and hasQueryKey run on the length of
-- the query and one more, and each round takes a byte at least. The print of a number runs on the
-- number and one more. All other loops are structural. The body of a control-plane request is
-- capped at 65536 bytes, as in the source.
--
-- Parameters: the storage service is a type of states with the answers of the storage library's
-- calls; the XML codec, json.Unmarshal, strings.ToLower, Values.Encode, net.SplitHostPort, the
-- hash of a body, the signer of the AWS SDK, the environment and the file system are functions.
-- The credential store may be swapped while a request is handled, so a request has a snapshot for
-- each of its three loads; `store_after` is the store behind any events of its watcher. How chi
-- picks a route is a parameter with the law that it is a registered route of the request's method
-- (and, for the probes, that a literal pattern which is the path is preferred where the path has no
-- encoding of its own, since chi looks at URL.RawPath first), and so are the requests that its
-- throttle refuses and the page of /metrics. chi's Recoverer, which stands between the request log
-- and the metrics, is a parameter too: it answers a panic with the status 500. What a forwarded
-- request changes in the storage service is not part of the state of the handlers; Proxy/Transport
-- sends it over a network that is a parameter. The workers of the pressure runner take their steps in the
-- order of a schedule, which is any list. The numbers of float64 are a type with operations, and
-- laws of their order where a theorem needs them; the HTTP client and the JSON decoders of the collectors are functions.
--
-- Not modelled: the request ids and upgraded connections among the middlewares of chi, the
-- pprof listener, the signals and the shutdown, which are calls of libraries; a path that is not
-- clean, which http.ServeMux redirects before it comes to a route; what httputil.ReverseProxy does
-- to headers between the director and the transport; the registration of the collectors and the
-- durations; the goroutine that starts the cleanup of the request log; the flags and the AWS client
-- of the pressure runner and of the test framework; the test cases. Log lines are left out, and so
-- is a failure to encode an answer, which the source only logs. A slice and a nil slice are told
-- apart only where the storage library does (`appended` in Proxy/Cors).
pub mod Base
pub mod Translate
pub mod CredStore
pub mod Config
pub mod Http
pub mod Metrics
pub mod ReqLog
pub mod Measure
pub mod Proxy
pub mod Tests
