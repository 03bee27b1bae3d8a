-- ===== src/Ingestion/Limits/Fetches.antt =====
-- What the loops of `sync_purchase_limits` over the providers make of the calls.
use mathlib.Core.Path.{subst}
use qdii_observatory.Common.{
  ℕ, ◌+◌, ◌≡◌, refl, sym, ap, ◌∙◌, String, Bool, ◌||◌, inl, inr, List, [], ◌∷◌, ◌++◌, map, ◌⊎◌,
  ◌==◌, arith, Bool-cases, length, filterb, anyb,
}
use qdii_observatory.Ingestion.Limits.Store.{Tables}
use qdii_observatory.Ingestion.Limits.Audit.{FundShare, some_of}
use qdii_observatory.Ingestion.Limits.Sync.{
  FundContract, Raised, Failure, Calls, Progress, all_shares, end_call, fetch_all, failures_of,
}
use qdii_observatory.Ingestion.Limits.Trace.{
  Call, is_about, direct_call, distribution_call, planned, Step, Trace, attempt-Step, run_calls,
  run_calls-append, direct_rounds-eq, distribution_rounds-eq,
}

module _ (calls : Calls) (run_id : ℕ) where
  -- What the calls leave in the local variables.
  record Counted (plan : List Call) (before after : Progress) : Type 0 where
    raised : List Call
    count : ℕ
    trace : Trace calls run_id plan before.tables raised count after.tables
    failed_calls : after.failed_calls ≡ before.failed_calls + length raised
    written : after.written ≡ before.written + count
    failures :
        (id : ℕ)
        → anyb (λ (f : Failure). f.share_id == id) after.failures
          ≡ (anyb (λ (f : Failure). f.share_id == id) before.failures || anyb (is_about id) raised)

  anyb-append :
      (p : Failure → Bool) (xs ys : List Failure) → anyb p (xs ++ ys) ≡ (anyb p xs || anyb p ys)
  anyb-append p [] ys = refl
  anyb-append p (x ∷ xs) ys = ground (arith, anyb-append p xs ys)

  anyb-noted :
      (id : ℕ) (provider : String) (error : Raised) (shares : List FundShare)
      → anyb
          (λ (f : Failure). f.share_id == id)
          (map
            (λ (s : FundShare). record { share_id = s.id; provider = provider; error = error })
            shares)
        ≡ anyb (λ (s : FundShare). s.id == id) shares
  anyb-noted id provider error [] = refl
  anyb-noted id provider error (s ∷ shares) = ground (arith, anyb-noted id provider error shares)

  end_call-Counted :
      (call : Call) (rest : List Call) (before : Progress) (outcome : Raised ⊎ (ℕ × Tables))
      {after : Progress}
      → Step calls run_id call before.tables outcome
      → Counted rest (end_call calls run_id call.provider call.shares before outcome) after
      → Counted (call ∷ rest) before after
  unfolding end_call
  end_call-Counted call rest before (inl error) step c = record {
    raised = call ∷ c.raised;
    count = c.count;
    trace = Trace.raises call error rest c.raised before.tables _ c.count step c.trace;
    failed_calls = omega (arith, c.failed_calls);
    written = c.written;
    failures = λ id. ground (
      arith,
      c.failures id,
      anyb-append (λ (f : Failure). f.share_id == id) before.failures
          (map
            (λ (s : FundShare). record { share_id = s.id; provider = call.provider; error = error })
            call.shares),
      anyb-noted id call.provider error call.shares,
    );
  }
  end_call-Counted call rest before (inr (count, middle)) step c = record {
    raised = c.raised;
    count = count + c.count;
    trace = Trace.returns call count rest c.raised before.tables middle _ c.count step c.trace;
    failed_calls = c.failed_calls;
    written = omega (arith, c.written);
    failures = c.failures;
  }

  run_calls-Counted :
      (plan : List Call) (before : Progress)
      → Counted plan before (run_calls calls run_id plan before)
  run_calls-Counted [] before = record {
    raised = [];
    count = 0;
    trace = Trace.ended before.tables;
    failed_calls = omega arith;
    written = omega arith;
    failures = λ id. ground arith;
  }
  run_calls-Counted (call ∷ rest) before =
      end_call-Counted call rest before _
        (attempt-Step calls run_id call before.tables call.fetched refl) (run_calls-Counted rest _)

  some_of-filterb : (p : Failure → Bool) (xs : List Failure) → some_of (filterb p xs) ≡ anyb p xs
  some_of-filterb p [] = refl
  some_of-filterb p (x ∷ xs) = elim (Bool-cases (p x)) [
    | inl h ↦ rw h refl
    | inr h ↦ rw h (some_of-filterb p xs)
  ]

  -- The loops over the providers make the calls in their order. They count those that raise and sum
  -- up the records of the others, and a share has a failure just if such a call is about it.
  pub record Fetches (funds : List FundContract) (tables : Tables) (progress : Progress)
      : Type 0 where
    pub raised : List Call
    pub trace :
        Trace calls run_id
          (planned calls run_id funds)
          tables
          raised
          progress.written
          progress.tables
    pub failed_calls : progress.failed_calls ≡ length raised
    pub failures :
        (share : FundShare)
        → some_of (failures_of calls run_id share progress.failures)
          ≡ anyb (is_about share.id) raised

  abbrev start : Tables → Progress
  start tables = record { tables = tables; failures = []; written = 0; failed_calls = 0 }

  fetch_all-eq :
      (funds : List FundContract) (tables : Tables)
      → fetch_all calls run_id funds tables
        ≡ run_calls calls run_id (planned calls run_id funds) (start tables)
  unfolding fetch_all
  fetch_all-eq funds tables =
      distribution_rounds-eq calls run_id (all_shares funds) _
      ∙ ap (run_calls calls run_id (map (distribution_call calls run_id) (all_shares funds)))
          (direct_rounds-eq calls run_id funds (start tables))
      ∙ sym (
          run_calls-append calls run_id (map (direct_call calls run_id) funds)
            (map (distribution_call calls run_id) (all_shares funds)) (start tables))

  pub fetch_all-Fetches :
      (funds : List FundContract) (tables : Tables)
      → Fetches funds tables (fetch_all calls run_id funds tables)
  fetch_all-Fetches funds tables =
      let c = run_calls-Counted (planned calls run_id funds) (start tables) in
      let all_written : c.count
          ≡ (run_calls calls run_id (planned calls run_id funds) (start tables)).written =
        omega (arith, c.written) in
      subst (Fetches funds tables) (sym (fetch_all-eq funds tables)) (record {
        raised = c.raised;
        trace =
            subst
              (λ n.
                Trace calls run_id (planned calls run_id funds) tables c.raised n
                  (run_calls calls run_id (planned calls run_id funds) (start tables)).tables)
              all_written c.trace;
        failed_calls = omega (arith, c.failed_calls);
        failures = λ share.
            some_of-filterb (λ (f : Failure). f.share_id == share.id) _ ∙ c.failures share.id;
      })
