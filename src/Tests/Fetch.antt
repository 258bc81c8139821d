-- ===== src/Tests/Fetch.antt =====
-- The fetch of the counts, step by step.
use http_add_on.Prelude.{
  ◌+◌, ◌*◌, ◌≤◌, ◌≡◌, ◌⊎◌, refl, Bool, true, false, Option, none, some, [], ◌∷◌,
}
use http_add_on.Prelude.Text.{Text, codes}
use http_add_on.Scaler.Pinger.{Counts, add_counts}
use http_add_on.Scaler.Fetch
use http_add_on.Scaler.Fetch.{
  refused, silent, Pair, asking, sending, failed, forwarding, done, Main, waiting, ranging,
  returned, World, start, answer, hand_over, receive, close, all_fetched, finish, Run, here, next,
}
use http_add_on.Scaler.Fetch.Ends.{HasEnded, asked, fetch_counts_ends}
use http_add_on.Scaler.Fetch.Silent.{silent_waits}
use http_add_on.Tests.Data.{whole}

abbrev pub fetch_world : Pair whole → Bool → Main whole → World whole
fetch_world p closed main = record { pairs = p ∷ []; closed = closed; main = main }

abbrev pub fetched : Counts whole → World whole
fetched c = fetch_world done true (returned (some (add_counts whole [] c)))

-- Every step of the fetch from one interceptor that answers.
pub fetch_run :
    (get_counts : Text → Option (Counts whole)) (url : Text) (c : Counts whole)
    → get_counts url ≡ some c
    → Run whole (start whole (asked whole get_counts (url ∷ []))) 6 (fetched c)
unfolding start
fetch_run get_counts url c e =
    next {v = fetched c}
      (next {v = fetch_world done true (ranging (add_counts whole [] c))}
        (next {v = fetch_world done false (ranging (add_counts whole [] c))}
          (next {v = fetch_world (forwarding c) false (ranging [])}
            (next {v = fetch_world (forwarding c) false waiting}
              (next {v = fetch_world (sending c) false waiting} (here _ refl)
                (answer [] _ (sending c) [] refl (rw e refl) refl))
              (hand_over [] c [] refl refl))
            (all_fetched refl refl refl refl))
          (receive [] [] c [] refl refl refl))
        (close refl refl refl))
      (finish (add_counts whole [] c) refl refl refl)

abbrev answer_counts : Counts whole
answer_counts = (codes "ns/web", record { concurrency = 3; rps = 2 }) ∷ []

abbrev get_web : Text → Option (Counts whole)
get_web url = some answer_counts

fetch_counts_ends_example :
    (6 ≤ 3 * 1 + 3)
    × (((v : World whole) × Fetch.Step whole (fetched answer_counts) v)
        ⊎ HasEnded whole get_web (codes "a:9090" ∷ []) (fetched answer_counts))
fetch_counts_ends_example =
    fetch_counts_ends whole get_web (codes "a:9090" ∷ [])
      (fetch_run get_web (codes "a:9090") answer_counts refl)

-- With no interceptor the fetch gives an error at once.
no_interceptor : (start whole (asked whole get_web [])).main ≡ returned none
unfolding start
no_interceptor = refl

-- The first of two interceptors has given an error, the second keeps silent.
abbrev silent_world : World whole
silent_world = record { pairs = failed ∷ asking silent ∷ []; closed = false; main = waiting }

silent_run : Run whole (start whole (refused ∷ silent ∷ [])) 1 silent_world
unfolding start
silent_run =
    next {v = silent_world} (here _ refl)
      (answer [] refused failed (asking silent ∷ []) refl refl refl)

silent_waits_example : silent_world.main ≡ waiting
silent_waits_example = silent_waits whole (refused ∷ []) [] silent_run
