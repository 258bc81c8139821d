-- ===== src/Interceptor/Observe.antt =====
-- interceptor/middleware: responsewriter.go, metrics.go and logging.go, with
-- interceptor/metrics/metricscollector.go and pkg/util/stopwatch.go. What a handler does with its
-- response writer is the list of its calls; headers, flushing and hijacking are left to the writer
-- below.

pub mod Reports
use http_add_on.Prelude.{ℕ, Bool, ◌&&◌, not, List, [], ◌∷◌, ◌++◌, if◌then◌else◌, map}
use http_add_on.Prelude.Text.{Text, text_eq, codes}
use http_add_on.Prelude.Word.{add64}

-- A call of `Write` has the number of bytes that the client's writer takes of it.
pub data WriterCall : Type 0 where
  write_header : ℕ → WriterCall
  write : ℕ → WriterCall

pub record ResponseWriter : Type 0 where
  pub bytes_written : ℕ
  pub status_code : ℕ

abbrev pub new_response_writer : ResponseWriter
new_response_writer = record { bytes_written = 0; status_code = 0 }

-- `Write` and `WriteHeader`, with the call that each makes of the writer below.
unfoldable pub step : ResponseWriter → WriterCall → ResponseWriter × WriterCall
step rw (write_header status_code) =
    (record rw { status_code = status_code }, write_header status_code)
step rw (write n) = (record rw { bytes_written = add64 rw.bytes_written n }, write n)

-- A handler's calls, in order, with those that reach the writer below.
unfoldable pub run : ResponseWriter → List WriterCall → ResponseWriter × List WriterCall
run rw [] = (rw, [])
run rw (c ∷ calls) =
    let (next, below) = step rw c in let (last, rest) = run next calls in (last, below ∷ rest)

pub record HttpRequest : Type 0 where
  pub method : Text
  pub path : Text
  pub host : Text
  pub proto : Text
  pub remote_addr : Text
  pub referer : Text
  pub user_agent : Text

-- What `RecordRequestCount` is given: it adds one to the count of these labels.
pub record Sample : Type 0 where
  pub method : Text
  pub path : Text
  pub response_code : ℕ
  pub host : Text

-- A collector, by what it was given; the collectors are libraries' meters.
pub data Collector : Type 0 where
  prometheus otel : List Sample → Collector

abbrev pub samples : Collector → List Sample
samples (prometheus l) = l
samples (otel l) = l

abbrev pub record_in : Sample → Collector → Collector
record_in s (prometheus l) = prometheus (s ∷ l)
record_in s (otel l) = otel (s ∷ l)

-- The two flags of the configuration.
unfoldable pub new_metrics_collectors : Bool → Bool → List Collector
new_metrics_collectors otel_prometheus_enabled otel_http_enabled =
    (if otel_prometheus_enabled then prometheus [] ∷ [] else [])
    ++ (if otel_http_enabled then otel [] ∷ [] else [])

unfoldable pub record_request_count : List Collector → Sample → List Collector
record_request_count [] s = []
record_request_count (collector ∷ rest) s = record_in s collector ∷ record_request_count rest s

-- `Metrics.metrics`, once the handler is done.
unfoldable pub metrics : List Collector → ResponseWriter → HttpRequest → List Collector
metrics collectors rw r =
    if not (text_eq r.path (codes "/livez")) && not (text_eq r.path (codes "/readyz"))
    then record_request_count collectors
        (record { method = r.method; path = r.path; response_code = rw.status_code; host = r.host })
    else collectors

-- The arguments of the line that `log` formats. `start_time` is that of the stopwatch, which is
-- stopped by then.
pub record LogEntry : Type 0 where
  pub remote_addr : Text
  pub start_time : ℕ
  pub method : Text
  pub path : Text
  pub proto : Text
  pub status : ℕ
  pub bytes : ℕ
  pub referer : Text
  pub user_agent : Text

unfoldable pub log : ResponseWriter → HttpRequest → ℕ → LogEntry
log lrw r start_time = record {
  remote_addr = r.remote_addr;
  start_time = start_time;
  method = r.method;
  path = r.path;
  proto = r.proto;
  status = lrw.status_code;
  bytes = lrw.bytes_written;
  referer = r.referer;
  user_agent = r.user_agent;
}

-- A request through the metrics middleware and, if requests are logged, the logging middleware inside
-- it; `calls` are those of the handler below.
unfoldable pub serve_http :
    Bool → List Collector → HttpRequest → ℕ → List WriterCall → List Collector × List LogEntry
serve_http log_requests collectors r now calls =
    let (lrw, above) = run new_response_writer calls in
    let (mrw, sent) = run new_response_writer (if log_requests then above else calls) in
    (metrics collectors mrw r, if log_requests then log lrw r now ∷ [] else [])
