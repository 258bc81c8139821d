-- ===== src/Interceptor/Observe/Reports.antt =====
-- What the metrics and the log say of a request.
use http_add_on.Prelude.{
  ℕ, ◌+◌, ◌%◌, ◌<◌, ◌≡◌, refl, ap, ◌∙◌, Bool, true, false, ◌&&◌, ◌||◌, not, List, [], ◌∷◌, arith,
  map, if◌then◌else◌,
}
use http_add_on.Prelude.Text.{text_eq, codes}
use http_add_on.Prelude.Word.{word_mod}
use http_add_on.Interceptor.Observe.{
  WriterCall, write_header, write, ResponseWriter, new_response_writer, step, run, HttpRequest,
  Sample, Collector, prometheus, otel, samples, record_request_count, metrics, LogEntry, log,
  serve_http,
}

-- The bytes that the client's writer took, without wrap-around, and the last status.
unfoldable pub bytes_of : List WriterCall → ℕ
bytes_of [] = 0
bytes_of (write_header c ∷ calls) = bytes_of calls
bytes_of (write n ∷ calls) = n + bytes_of calls

unfoldable pub status_of : ℕ → List WriterCall → ℕ
status_of code [] = code
status_of code (write_header c ∷ calls) = status_of c calls
status_of code (write n ∷ calls) = status_of code calls

run-status :
    (w : ResponseWriter) (calls : List WriterCall)
    → (run w calls).0.status_code ≡ status_of w.status_code calls
unfolding run step status_of
run-status w [] = refl
run-status rw (write_header c ∷ calls) = run-status (step rw (write_header c)).0 calls
run-status rw (write n ∷ calls) = run-status (step rw (write n)).0 calls

run-bytes :
    (w : ResponseWriter) (calls : List WriterCall)
    → w.bytes_written < word_mod
    → (run w calls).0.bytes_written ≡ (w.bytes_written + bytes_of calls) % word_mod
unfolding run step bytes_of
run-bytes w [] h = omega arith
run-bytes rw (write_header c ∷ calls) h = run-bytes (step rw (write_header c)).0 calls h
run-bytes rw (write n ∷ calls) h =
    omega (arith, run-bytes (step rw (write n)).0 calls (omega arith))

run-below : (w : ResponseWriter) (calls : List WriterCall) → (run w calls).1 ≡ calls
unfolding run step
run-below w [] = refl
run-below rw (write_header c ∷ calls) =
    ap (λ l. write_header c ∷ l) (run-below (step rw (write_header c)).0 calls)
run-below rw (write n ∷ calls) = ap (λ l. write n ∷ l) (run-below (step rw (write n)).0 calls)

abbrev pub is_probe_path : HttpRequest → Bool
is_probe_path r = text_eq r.path (codes "/livez") || text_eq r.path (codes "/readyz")

not_both : (a b : Bool) → (not a && not b) ≡ not (a || b)
not_both true b = refl
not_both false b = refl

-- What a request adds to a collector, and to the log.
abbrev pub sample : HttpRequest → List WriterCall → Sample
sample r calls = record {
  method = r.method;
  path = r.path;
  response_code = status_of 0 calls;
  host = r.host;
}

abbrev pub entry : HttpRequest → ℕ → List WriterCall → LogEntry
entry r now calls = record {
  remote_addr = r.remote_addr;
  start_time = now;
  method = r.method;
  path = r.path;
  proto = r.proto;
  status = status_of 0 calls;
  bytes = bytes_of calls % word_mod;
  referer = r.referer;
  user_agent = r.user_agent;
}

record_request_count-samples :
    (collectors : List Collector) (s : Sample)
    → map samples (record_request_count collectors s) ≡ map (λ c. s ∷ samples c) collectors
unfolding record_request_count
record_request_count-samples [] s = refl
record_request_count-samples (prometheus l ∷ rest) s =
    ap (λ m. (s ∷ l) ∷ m) (record_request_count-samples rest s)
record_request_count-samples (otel l ∷ rest) s =
    ap (λ m. (s ∷ l) ∷ m) (record_request_count-samples rest s)

by_probe :
    (probe : Bool) (collectors : List Collector) (s : Sample)
    → map samples (if not probe then record_request_count collectors s else collectors)
      ≡ map (λ c. if probe then samples c else s ∷ samples c) collectors
by_probe true collectors s = refl
by_probe false collectors s = record_request_count-samples collectors s

metrics-samples :
    (collectors : List Collector) (w : ResponseWriter) (r : HttpRequest) (calls : List WriterCall)
    → w.status_code ≡ status_of 0 calls
    → map samples (metrics collectors w r)
      ≡ map (λ c. if is_probe_path r then samples c else sample r calls ∷ samples c) collectors
unfolding metrics
metrics-samples collectors w r calls h =
    rw (not_both (text_eq r.path (codes "/livez")) (text_eq r.path (codes "/readyz")), h)
      (by_probe (is_probe_path r) collectors (sample r calls))

log-entry :
    (w : ResponseWriter) (r : HttpRequest) (now : ℕ) (calls : List WriterCall)
    → w.status_code ≡ status_of 0 calls
    → w.bytes_written ≡ bytes_of calls % word_mod
    → log w r now ≡ entry r now calls
unfolding log
log-entry w r now calls h k = rw (h, k) refl

-- Whether requests are logged or not, each collector is given one sample for a request, with the
-- last status that the handler wrote, but none for the paths of the probes; a log has one line, with
-- the same status, 0 if the handler wrote none, and the bytes that the client's writer took, modulo
-- 2 ^ 64.
pub serve_http-reports :
    (log_requests : Bool) (collectors : List Collector) (r : HttpRequest) (now : ℕ)
    (calls : List WriterCall)
    → (map samples (serve_http log_requests collectors r now calls).0
        ≡ map (λ c. if is_probe_path r then samples c else sample r calls ∷ samples c) collectors)
      × ((serve_http log_requests collectors r now calls).1
          ≡ (if log_requests then entry r now calls ∷ [] else []))
unfolding serve_http
serve_http-reports true collectors r now calls =
    let w = (run new_response_writer (run new_response_writer calls).1).0 in
    let v = (run new_response_writer calls).0 in
    let below = run-below new_response_writer calls in
    let status = run-status new_response_writer calls in
    (
      metrics-samples collectors w r calls
          (ap (λ l. (run new_response_writer l).0.status_code) below ∙ status),
      ap (λ e. e ∷ [])
          (log-entry v r now calls status
            (omega (arith, run-bytes new_response_writer calls (omega arith)))),
    )
serve_http-reports false collectors r now calls = (
  metrics-samples collectors (run new_response_writer calls).0 r calls
      (run-status new_response_writer calls),
  refl,
)
