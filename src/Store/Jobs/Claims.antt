-- ===== src/Store/Jobs/Claims.antt =====
-- internal/store/jobs.go: which jobs a claim takes.
use mathlib.Core.Path.{subst}
use simiclaw.Base.{
  ℕ, suc, ◌≡◌, refl, sym, ap, ◌∙◌, String, Bool, true, false, Option, none, some, List, [], ◌∷◌,
  if◌then◌else◌, inl, inr, Option-cases, str_eq_self, some-path,
}
use simiclaw.Model.{ScheduledJobKind}
use simiclaw.Store.Tables.{Db, JobRow}
use simiclaw.Store.Sql.{update_where, least_where, better}
use simiclaw.Store.Jobs.{
  ClaimedJob, is_runnable_job, earlier_job, locked_job, claimed_job, claim_job, claim_scheduled_job,
  job_is,
}

-- A lock changes neither whether a job can run nor its place in the order.
locked-runnable :
    (kind : ScheduledJobKind) (now now' : ℕ) (owner : String) (j : JobRow)
    → is_runnable_job kind now (locked_job owner now' j) ≡ is_runnable_job kind now j
unfolding is_runnable_job
locked-runnable kind now now' owner j = refl

module _ {A : Type 0} (test : A → Bool) (le : A → A → Bool) (f : A → A)
    (same : (x : A) → test (f x) ≡ test x) (left : (x y : A) → le (f x) y ≡ le x y)
    (right : (x y : A) → le x (f y) ≡ le x y) (hit : A → Bool) where
  abbrev touch : A → A
  touch x = if hit x then f x else x

  abbrev touched : Option A → Option A
  touched none = none
  touched (some x) = some (touch x)

  touch-test : (x : A) → test (touch x) ≡ test x
  touch-test x = cases (hit x)
    where
      cases : (b : Bool) → test (if b then f x else x) ≡ test x
      cases true = same x
      cases false = refl

  touch-le : (x y : A) → le (touch x) (touch y) ≡ le x y
  touch-le x y = cases (hit x) (hit y)
    where
      cases : (b c : Bool) → le (if b then f x else x) (if c then f y else y) ≡ le x y
      cases true true = left x (f y) ∙ right x y
      cases true false = left x y
      cases false true = right x y
      cases false false = refl

  touch-better : (x : A) (o : Option A) → better le (touch x) (touched o) ≡ touch (better le x o)
  touch-better x none = refl
  touch-better x (some y) = ap (λ b. if b then touch x else touch y) (touch-le x y) ∙ cases (le x y)
    where
      cases : (b : Bool) → (if b then touch x else touch y) ≡ touch (if b then x else y)
      cases true = refl
      cases false = refl

  -- A change that keeps the test and the order changes the least row in place.
  least_where-update_where :
      (xs : List A) → least_where test le (update_where hit f xs) ≡ touched (least_where test le xs)
  unfolding least_where update_where
  least_where-update_where [] = refl
  least_where-update_where (x ∷ xs) =
      ap (λ o. if test (touch x) then some (better le (touch x) o) else o)
        (least_where-update_where xs)
      ∙ ap (λ b. if b then some (better le (touch x) (touched o)) else touched o) (touch-test x)
      ∙ cases (test x)
    where
      o : Option A
      o = least_where test le xs

      cases :
          (b : Bool)
          → (if b then some (better le (touch x) (touched o)) else touched o)
            ≡ touched (if b then some (better le x o) else o)
      cases true = ap (λ z. some z) (touch-better x o)
      cases false = refl

earlier-left :
    (owner : String) (now : ℕ) (j k : JobRow)
    → earlier_job (locked_job owner now j) k ≡ earlier_job j k
unfolding earlier_job
earlier-left owner now j k = refl

earlier-right :
    (owner : String) (now : ℕ) (j k : JobRow)
    → earlier_job j (locked_job owner now k) ≡ earlier_job j k
unfolding earlier_job
earlier-right owner now j k = refl

claim_scheduled_job-found :
    (kind : ScheduledJobKind) (owner : String) (now : ℕ) (db : Db) (o : Option JobRow)
    → least_where (is_runnable_job kind now) earlier_job db.jobs ≡ o
    → claim_scheduled_job kind owner now db ≡ claim_job owner now o db
unfolding claim_scheduled_job
claim_scheduled_job-found kind owner now db o h = ap (λ o. claim_job owner now o db) h

-- The lock of a scheduled job keeps nobody out: right after a claim, a second claim of the same kind at
-- the same time, by any owner, takes the same job again, with the count of attempts one higher.
pub claim_scheduled_job-again :
    (kind : ScheduledJobKind) (owner owner' : String) (now : ℕ) (db db' : Db) (job : ClaimedJob)
    → claim_scheduled_job kind owner now db ≡ (some job, db')
    → (claim_scheduled_job kind owner' now db').0
      ≡ some (record job { attempt_count = suc job.attempt_count })
claim_scheduled_job-again kind owner owner' now db db' job h =
    elim (Option-cases (least_where (is_runnable_job kind now) earlier_job db.jobs)) [
      | inl p ↦ absurd (none_taken (sym (claim_scheduled_job-found kind owner now db none p) ∙ h))
      | inr (j, p) ↦
          let taken : claim_job owner now (some j) db ≡ (some job, db') =
            sym (claim_scheduled_job-found kind owner now db (some j) p) ∙ h in
          subst
            (λ (d : Db).
              (claim_scheduled_job kind owner' now d).0
              ≡ some (record job { attempt_count = suc job.attempt_count }))
            (ap (λ r. r.1) taken) (again j p (some-path _ job (ap (λ r. r.0) taken)))
    ]
  where
    none_taken : claim_job owner now none db ≡ (some job, db') → ⊥
    none_taken p = cc

    again :
        (j : JobRow)
        → least_where (is_runnable_job kind now) earlier_job db.jobs ≡ some j
        → claimed_job (locked_job owner now j) ≡ job
        → (claim_scheduled_job kind owner' now (claim_job owner now (some j) db).1).0
          ≡ some (record job { attempt_count = suc job.attempt_count })
    again j p e =
        let q =
          least_where-update_where (is_runnable_job kind now) earlier_job (locked_job owner now)
            (locked-runnable kind now now owner) (earlier-left owner now) (earlier-right owner now)
            (job_is j.job_id) db.jobs in
        let r : least_where (is_runnable_job kind now) earlier_job
              (update_where (job_is j.job_id) (locked_job owner now) db.jobs)
            ≡ some (locked_job owner now j) =
          q
          ∙ ap
              (touched (is_runnable_job kind now) earlier_job (locked_job owner now)
                (locked-runnable kind now now owner) (earlier-left owner now)
                (earlier-right owner now) (job_is j.job_id))
              p
          ∙ ap (λ b. some (if b then locked_job owner now j else j)) (str_eq_self j.job_id) in
        ap (λ r. r.0)
          (claim_scheduled_job-found kind owner' now (claim_job owner now (some j) db).1
            (some (locked_job owner now j)) r)
        ∙ ap (λ (c : ClaimedJob). some (record c { attempt_count = suc c.attempt_count })) e
