-- ===== src/Outbound/Retry.antt =====
-- internal/outbound/retry/policy.go: the delay before the next attempt to send a message.
pub mod Backoff
mod Tests
use simiclaw.Base.{ℕ, zero, suc, ◌*◌, Bool, true, false, if◌then◌else◌}
use simiclaw.Base.Int64.{wrap, slt, sle, add_duration}

-- Durations in nanoseconds and `MaxAttempts`, as 64-bit words.
pub record ExponentialPolicy : Type 0 where
  pub base_delay : ℕ
  pub max_delay : ℕ
  pub max_attempts : ℕ

pub record Decision : Type 0 where
  pub next_attempt_at : ℕ
  pub dead : Bool

abbrev pub default_base_delay : ℕ
default_base_delay = 5000000000

abbrev pub default_max_delay : ℕ
default_max_delay = 300000000000

abbrev pub default_attempts : ℕ
default_attempts = 5

abbrev pub default_policy : ExponentialPolicy
default_policy = record {
  base_delay = default_base_delay;
  max_delay = default_max_delay;
  max_attempts = default_attempts;
}

abbrev or_default : ℕ → ℕ → ℕ
or_default x d = if sle x 0 then d else x

-- The three `if`s at the head of `Next`.
abbrev pub effective : ExponentialPolicy → ExponentialPolicy
effective p = record {
  base_delay = or_default p.base_delay default_base_delay;
  max_delay = or_default p.max_delay default_max_delay;
  max_attempts = or_default p.max_attempts default_attempts;
}

-- The `for` loop over the rounds left; `break` returns.
unfoldable pub delay_loop : ℕ → ℕ → ℕ → ℕ
delay_loop zero max delay = delay
delay_loop (suc k) max delay =
    let rest = delay_loop k max (wrap (delay * 2)) in
    if sle max delay then max else if slt max (wrap (delay * 2)) then max else rest

-- A negative count makes no round.
abbrev pub rounds : ℕ → ℕ
rounds attempt_count = if slt attempt_count 0 then 0 else attempt_count

unfoldable pub next : ExponentialPolicy → ℕ → ℕ → Decision
next q attempt_count now =
    let p = effective q in
    let delay = delay_loop (rounds attempt_count) p.max_delay p.base_delay in
    if sle p.max_attempts attempt_count
    then record { next_attempt_at = now; dead = true }
    else record { next_attempt_at = add_duration now delay; dead = false }
