-- ===== src/Interceptor/Proxy/Unsynced.antt =====
-- A proxy server before the routing table has published its memory.
use http_add_on.Prelude.{
  ℕ, ◌≡◌, ◌≢◌, refl, ◌∙◌, ap, Bool, false, not, Option, none, some, List, [], ◌∷◌, map,
  Option-cases, inl, inr, if◌then◌else◌,
}
use http_add_on.Api.{HttpScaledObject}
use http_add_on.Queue.Memory.{Memory}
use http_add_on.Routing.Key.{Request}
use http_add_on.Routing.Radix.{Radix}
use http_add_on.Routing.Table.{Table, table_route, has_synced, health_check}
use http_add_on.Routing.Table.Refresh.{World, Reach, waiting}
use http_add_on.Routing.Table.Synced.{Reach-Published}
use http_add_on.Interceptor.Routing.{check, is_probe, serve_probe}
use http_add_on.Interceptor.Observe.{HttpRequest, Collector, samples}
use http_add_on.Interceptor.Observe.Reports.{is_probe_path}
use http_add_on.Interceptor.Proxy.{Proxy, answer, root_handler}
use http_add_on.Interceptor.Proxy.Chain.{expected, root_handler-reports}

module _ (rt : Radix HttpScaledObject) where
  -- The server routes by the table, and its probe handler has checked the table's health.
  pub record Serves (p : Proxy) (t : Table rt) : Type 0 where
    pub routes : (request : Option Request) → p.route request ≡ table_route rt t request
    pub probes : p.healthy ≡ check (not (health_check rt t) ∷ [])

  unsynced_routes :
      (t : Table rt) (request : Option Request)
      → has_synced rt t ≡ false
      → table_route rt t request ≡ none
  unfolding table_route has_synced
  unsynced_routes t none h = refl
  unsynced_routes t (some req) h = elim (Option-cases t.memory_holder) [
    | inl e ↦ rw (e, table_route) refl
    | inr (m, e) ↦ absurd (cc (rw e at h))
  ]

  unsynced_unhealthy :
      (t : Table rt) → has_synced rt t ≡ false → check (not (health_check rt t) ∷ []) ≡ false
  unfolding health_check check
  unsynced_unhealthy t h = rw h refl

  not_published :
      {counter : Memory} (w : World rt)
      → Reach rt counter w
      → has_synced rt w.table ≡ false
      → w.phase ≢ waiting
  not_published w reached h e = let k = rw e at (Reach-Published rt reached) in cc

  -- Until the refresh loop has published a first memory, and so before it ever waits: a server that
  -- routes by the table, and whose probe handler has checked it, writes 404 to every request that is
  -- not a probe's and 503 to one that is, as every collector is told but for the paths of the probes,
  -- and counts no request.
  pub unsynced_refuses :
      {counter : Memory} {w : World rt} (p : Proxy) (collectors : List Collector)
      (request : Option Request) (r : HttpRequest) (now : ℕ)
      → Reach rt counter w
      → has_synced rt w.table ≡ false
      → Serves p w.table
      → (w.phase ≢ waiting)
        × (map samples (root_handler p collectors request r now).0
            ≡ map
                (λ c.
                  if is_probe_path r
                  then samples c
                  else record {
                    method = r.method;
                    path = r.path;
                    response_code = if is_probe r.user_agent then 503 else 404;
                    host = r.host;
                  }
                    ∷ samples c)
                collectors)
        × ((answer p request r.user_agent).counted ≡ none)
  unsynced_refuses {w} p collectors request r now reached h s =
      let no_route : p.route request ≡ none =
        s.routes request ∙ unsynced_routes w.table request h in
      let unhealthy : p.healthy ≡ false = s.probes ∙ unsynced_unhealthy w.table h in
      let code : expected p r.user_agent (p.route request)
          ≡ (if is_probe r.user_agent then 503 else 404) =
        ap (expected p r.user_agent) no_route
        ∙ ap (λ (b : Bool). if is_probe r.user_agent then serve_probe b else 404) unhealthy in
      let (reports, counted) = root_handler-reports p collectors request r now in
      (λ e. not_published w reached h e, rw code at reports, rw no_route at counted)
