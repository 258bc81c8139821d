-- ===== src/Process/Server/Abandons.antt =====
-- How a server that is shut down ends, with requests in flight.
use http_add_on.Prelude.{ℕ, ◌≡◌, Bool, true, false, Option, none, some, ◌⊎◌}
use http_add_on.Process.{Err, server_closed, unless_ignored}
use http_add_on.Process.Server.{Server, Reach}

module _ {A : Type 0} (failure : Err) (tls_config : Option A) where
  -- `Shutdown` has returned only with no request in flight, and has been called only after the end of
  -- the context; what is returned is the failure, or the error of a closed server after that call.
  abbrev Caused : Option Err → Bool → Type 0
  Caused none shutting_down = Unit
  Caused (some e) shutting_down = (e ≡ failure) ⊎ ((e ≡ server_closed) × (shutting_down ≡ true))

  record IsSound (w : Server) : Type 0 where
    asked : (w.shutting_down ≡ false) ⊎ (w.context_done ≡ true)
    waited : (w.shutdown_returned ≡ false) ⊎ ((w.in_flight ≡ 0) × (w.shutting_down ≡ true))
    caused : Caused w.returned w.shutting_down

  -- With what is in flight, `ServeContext` has returned the error of a closed server, which the mains
  -- ignore.
  abbrev pub Abandons : ℕ → Type 0
  Abandons n =
      (v : Server) × Reach failure tls_config v
      × (v.in_flight ≡ n)
      × (v.returned ≡ some server_closed)
      × (unless_ignored v.returned ≡ none)

  -- What it returns is an error.
  abbrev pub HasReturned : Server → Type 0
  HasReturned w =
      (e : Err) × (w.returned ≡ some e)
      × ((e ≡ failure) ⊎ ((e ≡ server_closed) × (w.context_done ≡ true)))
