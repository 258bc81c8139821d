-- ===== src/Process/Operator/Ends.antt =====
-- How the operator ends.
use http_add_on.Prelude.{
  ℕ, ◌≡◌, refl, ap, Bool, true, false, Option, some, Option-cases, List, [], ◌∷◌, ◌++◌, ◌⊎◌, inl,
  inr,
}
use http_add_on.Prelude.Text.{Text}
use http_add_on.Prelude.Returns.{Ensures-eq}
use http_add_on.Config.Env.{Env}
use http_add_on.Config.Operator.{Base, ManagerOptions, manager_options}
use http_add_on.Config.Operator.Options.{IsConfigured, manager_options-IsConfigured}
use http_add_on.Process.Operator.{Call, run_calls, call_then, calls_of, main}

abbrev pub AllOk : (Call → Bool) → List Call → Type 0
AllOk ok [] = Unit
AllOk ok (c ∷ calls) = (ok c ≡ true) × AllOk ok calls

-- All calls are made, without an error, or those up to the first that gives one.
abbrev pub Ended : (Call → Bool) → List Call → List Call × ℕ → Type 0
Ended ok calls r =
    (AllOk ok calls × (r ≡ (calls, 0)))
    ⊎ ((before : List Call) × (failed : Call) × (after : List Call) × (calls
          ≡ before ++ (failed ∷ after))
        × AllOk ok before
        × (ok failed ≡ false)
        × (r ≡ (before ++ (failed ∷ []), 1)))

call_then-Ended :
    (ok : Call → Bool) (b : Bool) (c : Call) (calls : List Call) (r : List Call × ℕ)
    → ok c ≡ b
    → Ended ok calls r
    → Ended ok (c ∷ calls) (call_then b c r)
call_then-Ended ok false c calls r h ended = inr ([], c, calls, refl, tt, h, refl)
call_then-Ended ok true c calls r h (inl (all, e)) = inl ((h, all), rw e refl)
call_then-Ended ok true c calls r h (inr (before, failed, after, split, all, k, e)) =
    inr (c ∷ before, failed, after, ap (λ l. c ∷ l) split, (h, all), k, rw e refl)

run_calls-Ended : (ok : Call → Bool) (calls : List Call) → Ended ok calls (run_calls ok calls)
unfolding run_calls
run_calls-Ended ok [] = inl (tt, refl)
run_calls-Ended ok (c ∷ calls) =
    call_then-Ended ok (ok c) c calls (run_calls ok calls) refl (run_calls-Ended ok calls)

-- The operator exits with 1 and makes no manager, or it has options for the manager, with a port of
-- the external scaler that is an `int32` and durations of the leader election, with the defaults for
-- those that are not set, that are positive and in order. Then it makes its calls up to the first
-- that gives an error, on which it exits with 1, and the manager's `Start` is the last: it exits with
-- 0 only if none does. This holds whatever the environment is and however durations are parsed.
pub main_ends :
    (env : Env) (parse_duration : Text → Option ℕ) (new_base_from_env : Env → Option Base)
    (ok : Call → Bool)
    → (main env parse_duration new_base_from_env ok ≡ ([], 1))
      ⊎ ((o : ManagerOptions) × (manager_options env parse_duration new_base_from_env ≡ some o)
          × IsConfigured o
          × Ended ok (calls_of o) (main env parse_duration new_base_from_env ok))
unfolding main
main_ends env parse_duration new_base_from_env ok =
    let options = manager_options env parse_duration new_base_from_env in
    elim (Option-cases options) [
      | inl e ↦ inl (rw e refl)
      | inr (o, e) ↦ inr (
        o,
        e,
        Ensures-eq options IsConfigured o
            (manager_options-IsConfigured env parse_duration new_base_from_env) e,
        rw e (run_calls-Ended ok (calls_of o)),
      )
    ]
