-- ===== src/Outbound/Retry/Tests.antt =====
-- internal/outbound/retry/policy.go: the default policy on inputs.
use simiclaw.Base.{◌≡◌, refl, false, arith}
use simiclaw.Outbound.Retry.{next, default_policy, delay_loop, effective}
use simiclaw.Outbound.Retry.Backoff.{backoff, next-backoff}

third_failure : next default_policy 3 0 ≡ record { next_attempt_at = 40000000000; dead = false }
unfolding next delay_loop
third_failure = refl

next-backoff_example : next default_policy 3 0 ≡ backoff (effective default_policy) 3 0
next-backoff_example =
    next-backoff default_policy 3 0 (omega arith) (omega arith) (omega arith) (omega arith)
