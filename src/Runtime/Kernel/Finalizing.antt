-- ===== src/Runtime/Kernel/Finalizing.antt =====
-- internal/runtime/kernel/finalize.go: the outcome of a run.
use simiclaw.Base.{
  ℕ, ◌≡◌, refl, String, Bool, true, false, Option, none, some, arith, ◌≢◌, ◌⊎◌, inl, inr,
  Bool-cases,
}
use simiclaw.Model.{EventStatus, processed, suppressed, RunStatus, ErrorBlock}
use simiclaw.Model.Run.{ClaimContext, FinalizeCommand, ExecutionResult}
use simiclaw.Store.Finalize.{has_delivery}
use simiclaw.Runtime.Kernel.{build_finalize}

-- The statuses that end an event.
abbrev pub is_settled : EventStatus → Bool
is_settled processed = true
is_settled suppressed = true
is_settled EventStatus.failed = true
is_settled _ = false

abbrev pub is_failed : RunStatus → Bool
is_failed RunStatus.failed = true
is_failed _ = false

abbrev pub is_event_failed : EventStatus → Bool
is_event_failed EventStatus.failed = true
is_event_failed _ = false

abbrev pub is_open : RunStatus → Bool
is_open RunStatus.started = true
is_open _ = false

abbrev has_error : Option ErrorBlock → Bool
has_error none = false
has_error (some e) = true

-- The outcome is consistent.
pub record Consistent (run_error : Option String) (result : ExecutionResult) (cmd : FinalizeCommand)
    : Type 0 where
  pub settled : is_settled cmd.event_status ≡ true
  pub run_ended : is_open cmd.run_status ≡ false
  pub both_failed : is_failed cmd.run_status ≡ is_event_failed cmd.event_status
  pub has_block : has_error cmd.error ≡ is_event_failed cmd.event_status
  pub failed_if_error :
      (run_error ≡ none)
      ⊎ ((is_event_failed cmd.event_status ≡ true)
          × (cmd.outbox_body ≡ "")
          × (cmd.assistant_reply ≡ ""))
  pub silent_if_suppressed :
      (run_error ≢ none)
      ⊎ ((result.suppress_output ≡ false)
          ⊎ ((cmd.event_status ≡ suppressed) × (cmd.outbox_body ≡ "") × (cmd.assistant_reply ≡ "")))
  pub delivered_if_processed :
      (has_delivery cmd ≡ false)
      ⊎ ((cmd.event_status ≡ processed) × (run_error ≡ none) × (result.suppress_output ≡ false))

-- Every command that the kernel finalizes with ends its event and its run, both failed or neither, with
-- an error block exactly if they failed; a run with an error or with suppressed output has no reply
-- and nothing to deliver, and what is delivered is the reply of a processed event.
pub build_finalize-Consistent :
    (now counter : ℕ) (claim : ClaimContext) (result : ExecutionResult) (run_error : Option String)
    → Consistent run_error result (build_finalize now counter claim result run_error)
unfolding build_finalize has_delivery
build_finalize-Consistent now counter claim result (some text) = record {
  settled = refl;
  run_ended = refl;
  both_failed = refl;
  has_block = refl;
  failed_if_error = inr (refl, refl, refl);
  silent_if_suppressed = inl (λ e. absurd (cc));
  delivered_if_processed = inl refl;
}
build_finalize-Consistent now counter claim result none = record {
  settled = ground arith;
  run_ended = ground arith;
  both_failed = ground arith;
  has_block = ground arith;
  failed_if_error = inl refl;
  silent_if_suppressed = inr (elim (Bool-cases result.suppress_output) [
    | inl p ↦ inr (ground (arith, p), ground (arith, p), ground (arith, p))
    | inr p ↦ inl p
  ]);
  delivered_if_processed =
      elim (Bool-cases (has_delivery (build_finalize now counter claim result none))) [
        | inl d ↦ inr (ground (arith, d), refl, ground (arith, d))
        | inr d ↦ inl d
      ];
}

pub build_finalize-ids :
    (now counter : ℕ) (claim : ClaimContext) (result : ExecutionResult) (run_error : Option String)
    → ((build_finalize now counter claim result run_error).event_id ≡ claim.event.event_id)
      × ((build_finalize now counter claim result run_error).run_id ≡ claim.run_id)
unfolding build_finalize
build_finalize-ids now counter claim result (some text) = (refl, refl)
build_finalize-ids now counter claim result none = (ground arith, ground arith)
