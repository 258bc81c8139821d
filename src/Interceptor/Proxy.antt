-- ===== src/Interceptor/Proxy.antt =====
-- interceptor/main.go, runProxyServer: the chain of the handlers that a proxy server has, with what
-- middleware/counting.go, handler/static.go, handler/probe.go, handler/upstream.go and
-- proxy_handlers.go write to the client. The tracing handler passes all on.

pub mod Chain
pub mod Unsynced
use http_add_on.Prelude.{ℕ, Bool, Option, none, some, List, [], ◌∷◌, if◌then◌else◌, ◌>>=◌}
use http_add_on.Prelude.Text.{Text}
use http_add_on.Api.{HttpScaledObject, to_string}
use http_add_on.Routing.Key.{Request}
use http_add_on.Interceptor.Routing.{Services, Served, probe, static, upstream, serve, serve_probe}
use http_add_on.Interceptor.Forward.{
  ForwardingConfig, Forwarded, Proxied, proxied, bad_gateway, no_stream, forward,
}
use http_add_on.Interceptor.Observe.{
  WriterCall, write_header, write, HttpRequest, Collector, LogEntry, serve_http,
}

-- What the chain is built from, with the probe handler's flag, and net/http's part: how many bytes the
-- client takes of a status's text and of the text of a failed wait, and what the reverse proxy writes,
-- which is given what its error handler would write.
pub record Proxy : Type 0 where
  pub services : Services
  pub tls_enabled : Bool
  pub route : Option Request → Option HttpScaledObject
  pub healthy : Bool
  pub config : ForwardingConfig
  pub wait : ℕ → Text → Text → Option Bool
  pub log_requests : Bool
  pub text_taken : ℕ → ℕ
  pub error_taken : ℕ
  pub reverse_proxy : Proxied → List WriterCall → List WriterCall

-- The static handler, and likewise the probe handler.
unfoldable pub write_status : Proxy → ℕ → List WriterCall
write_status p status_code = write_header status_code ∷ write (p.text_taken status_code) ∷ []

abbrev pub write_forwarded : Proxy → Forwarded → List WriterCall
write_forwarded p (proxied r) = p.reverse_proxy r (write_status p 502)
write_forwarded p bad_gateway = write_header 502 ∷ write p.error_taken ∷ []
write_forwarded p no_stream = write_status p 500

-- What a request makes the handlers below the logging do: the calls of the writer, and the key that
-- the counting middleware's goroutine counts.
pub record Answer : Type 0 where
  pub calls : List WriterCall
  pub counted : Option Text

abbrev pub answer_served : Proxy → Served → Answer
answer_served p probe = record { calls = write_status p (serve_probe p.healthy); counted = none }
answer_served p (static status_code) = record { calls = write_status p status_code; counted = none }
answer_served p (upstream c) = record {
  calls = write_forwarded p (forward p.config p.wait c);
  counted = some (to_string c.httpso.key);
}

unfoldable pub answer : Proxy → Option Request → Text → Answer
answer p request user_agent =
    answer_served p (serve p.services p.tls_enabled p.route request user_agent)

-- The root handler: `request` is what the routing middleware reads of `r`, `now` the time.
unfoldable pub root_handler :
    Proxy → List Collector → Option Request → HttpRequest → ℕ → List Collector × List LogEntry
root_handler p collectors request r now =
    serve_http p.log_requests collectors r now (answer p request r.user_agent).calls
