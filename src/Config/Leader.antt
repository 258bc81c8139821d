-- ===== src/Config/Leader.antt =====
-- `ValidateLeaderElectionConfig` of pkg/util/env_resolver.go. A duration is a 64-bit pattern of
-- nanoseconds, which may be negative.
use http_add_on.Prelude.{
  ℕ, ◌≡◌, ◌↔◌, Bool, true, not, Option, none, some, arith, if◌then◌else◌, ◌*◌,
}
use http_add_on.Prelude.Word.{lt64}
use http_add_on.Queue.Time.{second}
use http_add_on.Config.Env.{or_else}

abbrev pub default_lease_duration : ℕ
default_lease_duration = 15 * second

abbrev pub default_renew_deadline : ℕ
default_renew_deadline = 10 * second

abbrev pub default_retry_period : ℕ
default_retry_period = 2 * second

-- The errors, in the order of the checks.
pub data LeaderError : Type 0 where
  lease_not_positive renew_not_positive retry_not_positive lease_too_short renew_too_short :
      LeaderError

-- `a <= b` of the signed numbers.
abbrev pub le64 : ℕ → ℕ → Bool
le64 a b = not (lt64 b a)

abbrev pub check_durations : ℕ → ℕ → ℕ → Option LeaderError
check_durations lease renew retry =
    if le64 lease 0
    then some lease_not_positive
    else if le64 renew 0
    then some renew_not_positive
    else if le64 retry 0
    then some retry_not_positive
    else if le64 lease renew
    then some lease_too_short
    else if le64 renew retry
    then some renew_too_short
    else none

-- `none` is the result without error.
unfoldable pub validate_leader_election_config : Option ℕ → Option ℕ → Option ℕ → Option LeaderError
validate_leader_election_config lease_duration renew_deadline retry_period =
    check_durations (or_else default_lease_duration lease_duration)
      (or_else default_renew_deadline renew_deadline) (or_else default_retry_period retry_period)

-- The durations are in order: the retry period positive, the deadline greater, the lease the longest.
abbrev pub IsOrdered : ℕ → ℕ → ℕ → Type 0
IsOrdered lease renew retry =
    (lt64 0 retry ≡ true) × (lt64 retry renew ≡ true) × (lt64 renew lease ≡ true)

check_durations-IsOrdered :
    (lease renew retry : ℕ)
    → (check_durations lease renew retry ≡ none) ↔ IsOrdered lease renew retry
check_durations-IsOrdered lease renew retry = ground arith

-- The configuration of the leader election is accepted exactly if, with the defaults of 15, 10 and 2
-- seconds for what is not set, the lease is longer than the deadline for its renewal, that is longer
-- than the retry period, and that is positive.
pub validate_leader_election_config-IsOrdered :
    (lease renew retry : Option ℕ)
    → (validate_leader_election_config lease renew retry ≡ none)
      ↔ IsOrdered
          (or_else default_lease_duration lease)
          (or_else default_renew_deadline renew)
          (or_else default_retry_period retry)
unfolding validate_leader_election_config
validate_leader_election_config-IsOrdered lease renew retry =
    check_durations-IsOrdered (or_else default_lease_duration lease)
      (or_else default_renew_deadline renew) (or_else default_retry_period retry)
