-- ===== src/Tests/Interceptor.antt =====
-- Tests of the interceptor.
use http_add_on.Prelude.{
  drop, ℕ, ◌≡◌, ◌≢◌, refl, Bool, true, false, Option, none, some, List, [], ◌∷◌, ◌++◌, map, arith,
}
use http_add_on.Prelude.Text.{Text, codes}
use http_add_on.Prelude.Returns.{Returns-eq}
use http_add_on.Queue.Time.{second}
use http_add_on.Queue.Memory.{Memory, new_memory, ensure_key}
use http_add_on.Queue.Memory.Sound.{HasKey, new_memory-IsSound, ensure_key_total}
use http_add_on.Interceptor.Counting.Balance.{
  Step, Reach, start, with_queue, IsExact, Reach-IsExact,
}
use http_add_on.Interceptor.Wait.{
  Endpoint, endpoints, context_done, other_object, ready, failed, waiting, forward_wait,
  workload_active_endpoints, forward_wait-first,
}
use http_add_on.Prelude.Decimal.{digits}
use http_add_on.Interceptor.Routing.{stream_from_httpso, get_port, Context, Services, serve}
use http_add_on.Interceptor.Forward.{ForwardingConfig, forward, no_stream}
use http_add_on.Interceptor.Forward.Destination.{proxied_stream, destination, serve-forward}
use http_add_on.Api.{HttpScaledObject}
use http_add_on.Routing.Radix.{Radix, dict_radix}
use http_add_on.Routing.Table.{new_table, on_delete}
use http_add_on.Interceptor.Counting.{inc}
use http_add_on.Interceptor.Counting.Removed.{inc-on_delete}
use http_add_on.Interceptor.Observe.{
  WriterCall, write_header, write, HttpRequest, prometheus, samples, serve_http,
}
use http_add_on.Interceptor.Observe.Reports.{status_of, sample, entry, serve_http-reports}
use http_add_on.Interceptor.Proxy.{Proxy, answer, root_handler}
use http_add_on.Interceptor.Proxy.Chain.{root_handler-reports}
use http_add_on.Interceptor.Tls.{Certificate, Files, directory, file, TlsConfig}
use http_add_on.Tests.Data.{web}

-- A host that the routing table adds.
abbrev added :
    (m : Memory) × (ensure_key new_memory (codes "ns/web") second second ≡ some m)
    × HasKey (codes "ns/web") m
added =
    Returns-eq (ensure_key new_memory (codes "ns/web") second second) (HasKey (codes "ns/web")) (
      ensure_key_total new_memory (codes "ns/web") second second (omega arith) (omega arith)
        new_memory-IsSound)

added_step : Step start (with_queue start added.0)
unfolding start
added_step = Step.ensure {w = start} (codes "ns/web") second second added.0 added.1

Reach-IsExact_example : IsExact (with_queue start added.0)
Reach-IsExact_example =
    Reach-IsExact (with_queue start added.0) (Reach.next {w = start} Reach.started added_step)

abbrev pod : Endpoint
pod = record { ready = none; addresses = codes "10.0.0.1" ∷ [] }

abbrev starting_pod : Endpoint
starting_pod = record { ready = some false; addresses = codes "10.0.0.1" ∷ [] }

forward_wait-first_example :
    (forward_wait true
        (some [])
        ((other_object ∷ endpoints (starting_pod ∷ []) ∷ []) ++ endpoints (pod ∷ []) ∷ [])
      ≡ ready true)
    × (forward_wait true
          (some [])
          ((other_object ∷ endpoints (starting_pod ∷ []) ∷ []) ++ context_done ∷ [])
        ≡ failed)
    × (forward_wait true (some []) (other_object ∷ endpoints (starting_pod ∷ []) ∷ []) ≡ waiting)
unfolding workload_active_endpoints
forward_wait-first_example =
    forward_wait-first [] (other_object ∷ endpoints (starting_pod ∷ []) ∷ []) [] (pod ∷ []) refl
      (refl, tt) (omega arith)

-- The part of a URL behind `http://`.
abbrev services : Services
services = record {
  cache = λ namespace name. none;
  parse_url = λ url. some (record { scheme = codes "http"; host = drop 7 url });
}

abbrev config : ForwardingConfig
config = record {
  wait_timeout = second;
  resp_header_timeout = second;
  force_attempt_http2 = false;
  max_idle_conns = 10;
  idle_conn_timeout = second;
  tls_handshake_timeout = second;
  expect_continue_timeout = second;
  enable_cold_start_header = true;
}

abbrev context : Context
context = record {
  httpso = web;
  stream = record { scheme = codes "http"; host = codes "web.ns:80" };
  failover_stream = some (record { scheme = codes "http"; host = codes "spare.ns:81" });
}

abbrev timed_out : ℕ → Text → Text → Option Bool
timed_out timeout namespace service = none

serve-forward_example :
    (some web ≡ some context.httpso)
    × (proxied_stream (forward config timed_out context) ≡ destination services false web none)
    × (forward config timed_out context ≢ no_stream)
unfolding serve stream_from_httpso get_port digits
serve-forward_example =
    serve-forward services false (λ r. some web) none [] config timed_out context refl

abbrev rt : Radix HttpScaledObject
rt = dict_radix HttpScaledObject

inc-on_delete_example :
    inc
      (record {
        queue_counter = (on_delete rt (new_table rt added.0) (some web)).queue_counter;
        pending_requests = [];
      })
      (codes "ns/web")
      second
    ≡ none
inc-on_delete_example = inc-on_delete rt (new_table rt added.0) web [] second

abbrev pub request : HttpRequest
request = record {
  method = codes "GET";
  path = codes "/x";
  host = codes "a.io";
  proto = codes "HTTP/1.1";
  remote_addr = codes "10.0.0.9:1";
  referer = [];
  user_agent = [];
}

abbrev response : List WriterCall
response = write_header 200 ∷ write 5 ∷ write 7 ∷ []

serve_http-reports_example :
    (map samples (serve_http true (prometheus [] ∷ []) request 3 response).0
      ≡ (sample request response ∷ []) ∷ [])
    × ((serve_http true (prometheus [] ∷ []) request 3 response).1 ≡ entry request 3 response ∷ [])
serve_http-reports_example = serve_http-reports true (prometheus [] ∷ []) request 3 response

-- The wait fails, and the failover answers.
abbrev pub proxy : Proxy
proxy = record {
  services = services;
  tls_enabled = false;
  route = λ r. some web;
  healthy = true;
  config = config;
  wait = timed_out;
  log_requests = true;
  text_taken = λ code. 3;
  error_taken = 5;
  reverse_proxy = λ r on_error. response;
}

root_handler-reports_example :
    (map samples (root_handler proxy (prometheus [] ∷ []) none request 3).0
      ≡ (sample request response ∷ []) ∷ [])
    × ((answer proxy none []).counted ≡ some (codes "ns/web"))
unfolding stream_from_httpso get_port digits status_of
root_handler-reports_example = root_handler-reports proxy (prometheus [] ∷ []) none request 3

abbrev certificate : Certificate
certificate = record {
  chain = [];
  leaf = some (record { dns_names = codes "a.io" ∷ []; ip_addresses = []; uris = [] });
}

-- One directory with a certificate and its key.
abbrev files : Files
files = record {
  load_x509_key_pair = λ c k. some certificate;
  parse_certificate = λ raw. none;
  read_file = λ path. some (codes "PEM");
  walk = λ dir. directory dir ∷ file (codes "d/a.crt") ∷ file (codes "d/a.key") ∷ [];
}

abbrev tls_config : TlsConfig
tls_config = record {
  root_cas = codes "PEM" ∷ [];
  insecure_skip_verify = false;
  uri_domains_to_certs = (codes "a.io", certificate) ∷ [];
  default_cert = none;
}
