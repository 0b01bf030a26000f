-- ===== src/Outbound/Retry/Backoff.antt =====
-- The delays in closed form.
use native.Mathlib.Nat.{pow-suc}
use simiclaw.Base.{
  ℕ, zero, suc, ◌+◌, ◌*◌, ◌^◌, ◌≤◌, ◌<◌, ◌≡◌, refl, min, true, false, arith, ltb, leb, ◌==◌,
  if◌then◌else◌, inl, inr, Bool-cases,
}
use simiclaw.Base.Int64.{wrap, half, word, slt_nonneg, sle_nonneg, add_duration_nonneg}
use simiclaw.Outbound.Retry.{
  ExponentialPolicy, Decision, effective, or_default, delay_loop, rounds, next,
}

double_pow : (d k : ℕ) → d * 2 ^ suc k ≡ d * 2 * 2 ^ k
double_pow d k = grind (arith, pow-suc 2 k)

pow_pos : (k : ℕ) → 0 < 2 ^ k
pow_pos zero = omega arith
pow_pos (suc k) = omega (arith, pow-suc 2 k, pow_pos k)

le_double : (d k : ℕ) → d ≤ d * 2 ^ k
le_double d k = grind (arith, pow_pos k)

-- One round without overflow.
delay_loop_step :
    (k max delay : ℕ)
    → delay < half
    → max ≤ 2 ^ 62
    → delay_loop (suc k) max delay ≡ (
        if leb max delay
        then max
        else if ltb max (delay * 2)
        then max
        else delay_loop k max (delay * 2))
unfolding delay_loop
delay_loop_step k max delay q r = elim (Bool-cases (leb max delay)) [
  | inl e ↦ rw (sle_nonneg max delay (omega arith) q, e) refl
  | inr e ↦
      let w : wrap (delay * 2) ≡ delay * 2 = ground arith in
      rw
        (
          sle_nonneg max delay (omega arith) q,
          w,
          slt_nonneg max (delay * 2) (omega arith) (ground arith),
        )
        refl
]

delay_loop_zero : (max delay : ℕ) → delay_loop 0 max delay ≡ delay
unfolding delay_loop
delay_loop_zero max delay = refl

delay_loop_lem :
    (k max delay : ℕ)
    → delay < half
    → max ≤ 2 ^ 62
    → delay_loop (suc k) max delay ≡ min (delay * 2 ^ suc k) max
delay_loop_lem zero max delay q r =
    ground (arith, delay_loop_step 0 max delay q r, delay_loop_zero max (delay * 2))
delay_loop_lem (suc k) max delay q r = ground (
  arith,
  delay_loop_step (suc k) max delay q r,
  delay_loop_lem k max (delay * 2),
  double_pow delay (suc k),
  le_double (delay * 2) (suc k),
)

-- What the policy promises: nothing after the last attempt, and else the base delay doubled once
-- for each earlier attempt, up to the maximum.
abbrev pub backoff : ExponentialPolicy → ℕ → ℕ → Decision
backoff p n now =
    if leb p.max_attempts n then record { next_attempt_at = now; dead = true } else record {
      next_attempt_at =
          now + (if n == 0 then p.base_delay else min (p.base_delay * 2 ^ n) p.max_delay);
      dead = false;
    }

or_default_lt : (x d : ℕ) → x < word → d < half → or_default x d < half
or_default_lt x d p q = ground arith

rounds_nonneg : (n : ℕ) → n < half → rounds n ≡ n
rounds_nonneg n h = ground arith

delay_loop-backoff :
    (n max delay : ℕ)
    → delay < half
    → max ≤ 2 ^ 62
    → delay_loop n max delay ≡ (if n == 0 then delay else min (delay * 2 ^ n) max)
delay_loop-backoff zero max delay q r = delay_loop_zero max delay
delay_loop-backoff (suc k) max delay q r = ground (arith, delay_loop_lem k max delay q r)

delay_lt : (n max delay : ℕ) → delay < half → max ≤ 2 ^ 62 → delay_loop n max delay < half
delay_lt zero max delay q r = omega (arith, delay_loop_zero max delay)
delay_lt (suc k) max delay q r = omega (arith, delay_loop_lem k max delay q r)

-- `Next` computes the promised decision, for any policy of 64-bit words whose maximum delay, once
-- the defaults are in, is at most 2 ^ 62 nanoseconds, and any count of attempts that is not negative.
pub next-backoff :
    (p : ExponentialPolicy) (n now : ℕ)
    → p.base_delay < word
    → p.max_attempts < word
    → (effective p).max_delay ≤ 2 ^ 62
    → n < half
    → next p n now ≡ backoff (effective p) n now
unfolding next
next-backoff p n now hb ha hm hn =
    let b = or_default_lt p.base_delay 5000000000 hb (omega arith) in
    let a = or_default_lt p.max_attempts 5 ha (omega arith) in
    rw
      (
        sle_nonneg (effective p).max_attempts n a hn,
        rounds_nonneg n hn,
        add_duration_nonneg now (delay_loop n (effective p).max_delay (effective p).base_delay)
            (delay_lt n _ _ b hm),
        delay_loop-backoff n (effective p).max_delay (effective p).base_delay b hm,
      )
      refl
