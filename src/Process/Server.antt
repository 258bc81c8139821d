-- ===== src/Process/Server.antt =====
-- `ServeContext` of pkg/http/server.go: the function itself and the goroutine that it starts, with a
-- server of net/http, whose documentation says that `Shutdown` makes `ListenAndServe` return
-- ErrServerClosed at once, takes no new connections, and returns when all are idle.

pub mod Abandons
use http_add_on.Prelude.{ℕ, suc, ◌≡◌, Bool, true, false, Option, none, some}
use http_add_on.Process.{Err, server_closed}

pub data Listen : Type 0 where
  listen_and_serve listen_and_serve_tls : Listen

-- By whether there is a TLS configuration.
abbrev pub listen_of : {A : Type 0} → Option A → Listen
listen_of none = listen_and_serve
listen_of (some tls_config) = listen_and_serve_tls

-- What `ServeContext` has returned, if it has, and how many requests the server answers.
pub record Server : Type 0 where
  pub listen : Listen
  pub context_done : Bool
  pub shutting_down : Bool
  pub shutdown_returned : Bool
  pub in_flight : ℕ
  pub returned : Option Err

unfoldable pub serve_context : {A : Type 0} → Option A → Server
serve_context tls_config = record {
  listen = listen_of tls_config;
  context_done = false;
  shutting_down = false;
  shutdown_returned = false;
  in_flight = 0;
  returned = none;
}

-- `failure` is the error of a server that cannot listen, or cannot go on.
pub data Step (failure : Err) (w v : Server) : Type 0 where
  arrives :
      w.shutting_down ≡ false
      → w.returned ≡ none
      → v ≡ record w { in_flight = suc w.in_flight }
      → Step failure w v
  answers : (n : ℕ) → w.in_flight ≡ suc n → v ≡ record w { in_flight = n } → Step failure w v
  cancels : v ≡ record w { context_done = true } → Step failure w v
  -- the goroutine calls `Shutdown`
  shuts_down : w.context_done ≡ true → v ≡ record w { shutting_down = true } → Step failure w v
  closes :
      w.shutting_down ≡ true
      → w.returned ≡ none
      → v ≡ record w { returned = some server_closed }
      → Step failure w v
  fails :
      w.shutting_down ≡ false
      → w.returned ≡ none
      → v ≡ record w { returned = some failure }
      → Step failure w v
  drained :
      w.shutting_down ≡ true
      → w.in_flight ≡ 0
      → v ≡ record w { shutdown_returned = true }
      → Step failure w v

pub data Reach {A : Type 0} (failure : Err) (tls_config : Option A) : Server → Type 0 where
  here : (w : Server) → w ≡ serve_context tls_config → Reach failure tls_config w
  next : {w v : Server} → Reach failure tls_config w → Step failure w v → Reach failure tls_config v
