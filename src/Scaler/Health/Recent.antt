-- ===== src/Scaler/Health/Recent.antt =====
-- When the scaler is healthy.
use http_add_on.Prelude.{
  ℕ, ◌+◌, ◌*◌, ◌≡◌, refl, ap, ◌∙◌, Option, none, some, List, [], ◌∷◌, ◌++◌, arith, if◌then◌else◌,
  map, leb, ◌&&◌,
}
use http_add_on.Queue.Float.{Float64}
use http_add_on.Queue.Memory.{is_some}
use http_add_on.Scaler.Pinger.{Counts, QueuePinger, PingerEvent, fetch, start, save_counts}
use http_add_on.Scaler.Health.{
  HealthEvent, HealthServer, ticked, serving, not_serving, set_serving_status, health_tick,
  health_loop,
}

module _ (f : Float64) where
  abbrev pub fetches : List (ℕ × Option (Counts f)) → List (PingerEvent f)
  fetches l = map (λ p. fetch p.0 p.1) l

  abbrev pub ticked_all : List (ℕ × QueuePinger f) → List (HealthEvent f)
  ticked_all l = map (λ e. ticked e.0 e.1) l

  start-last :
      (q : QueuePinger f) (l : List (ℕ × Option (Counts f))) (t : ℕ) (o : Option (Counts f))
      → (p : QueuePinger f) × (start f q (fetches l ++ fetch t o ∷ []) ≡ save_counts f p t o)
  unfolding start
  start-last q [] t o = (q, refl)
  start-last q ((t', o') ∷ l) t o = start-last (save_counts f q t' o') l t o

  health_loop-last :
      (d : ℕ) (hs : HealthServer) (l : List (ℕ × QueuePinger f)) (now : ℕ) (p : QueuePinger f)
      → health_loop f d hs (ticked_all l ++ ticked now p ∷ []) ≡ health_tick f d now p
  unfolding health_loop
  health_loop-last d hs [] now p = refl
  health_loop-last d hs ((t, q) ∷ l) now p = health_loop-last d (health_tick f d t q) l now p

  health_tick-saved :
      (d now t : ℕ) (q : QueuePinger f) (o : Option (Counts f))
      → health_tick f d now (save_counts f q t o)
        ≡ set_serving_status (if is_some o && leb now (t + d * 2) then serving else not_serving)
  unfolding health_tick save_counts
  health_tick-saved d now t q none = ground arith
  health_tick-saved d now t q (some counts) = ground arith

  -- After any history of ticks and of fetches that ended with a fetch at the time `t`, the scaler is
  -- alive and ready exactly if that fetch succeeded and is no older than two ticks of the queue, and
  -- else neither.
  pub health_loop-recent :
      (d : ℕ) (hs : HealthServer) (ticks : List (ℕ × QueuePinger f)) (q : QueuePinger f)
      (history : List (ℕ × Option (Counts f))) (t now : ℕ) (o : Option (Counts f))
      → health_loop f d hs (
          map (λ e. ticked e.0 e.1) ticks
          ++ ticked now (start f q (fetches history ++ fetch t o ∷ [])) ∷ [])
        ≡ set_serving_status (if is_some o && leb now (t + d * 2) then serving else not_serving)
  health_loop-recent d hs ticks q history t now o =
      let (p, e) = start-last q history t o in
      health_loop-last d hs ticks now (start f q (fetches history ++ fetch t o ∷ []))
      ∙ ap (health_tick f d now) e
      ∙ health_tick-saved d now t p o
