-- ===== src/Ingestion/Limits/Trace.antt =====
-- The calls of `sync_purchase_limits` as a sequence of steps: what each of them raises or stores.
use mathlib.Core.Path.{subst}
use qdii_observatory.Common.{
  ℕ, ◌+◌, ◌≡◌, refl, sym, ap, ◌∙◌, String, Bool, inl, inr, Option, none, some, List, [], ◌∷◌, ◌++◌,
  map, ◌⊎◌, ◌==◌, anyb,
}
use qdii_observatory.Common.Outcomes.{Outcome, thrown, done, Outcome-cases}
use qdii_observatory.Ingestion.Limits.Schema.{PurchaseLimitSnapshot}
use qdii_observatory.Ingestion.Limits.Store.{SnapshotError, Tables, store_snapshot}
use qdii_observatory.Ingestion.Limits.Audit.{FundShare}
use qdii_observatory.Ingestion.Limits.Sync.{
  FundContract, Raised, fetch_failed, store_failed, Calls, Progress, codes_of, all_shares,
  store_fetched, end_call, direct_rounds, distribution_rounds,
}

-- A call: the provider and the shares that it is about, what the provider raises or returns, and how
-- the snapshot is stored.
pub record Call : Type 0 where
  pub provider : String
  pub shares : List FundShare
  pub fetched : String ⊎ PurchaseLimitSnapshot
  pub contract_id : ℕ
  pub key : String
  pub artifact_share : Option ℕ

abbrev pub is_about : ℕ → Call → Bool
is_about id call = anyb (λ (s : FundShare). s.id == id) call.shares

module _ (calls : Calls) (run_id : ℕ) where
  abbrev pub direct_call : FundContract → Call
  direct_call fund = record {
    provider = calls.direct_name;
    shares = fund.shares;
    fetched = calls.fetch_direct fund.representative_code fund.shares;
    contract_id = fund.id;
    key = fund.representative_code;
    artifact_share = none;
  }

  abbrev pub distribution_call : FundShare → Call
  distribution_call share = record {
    provider = calls.distribution_name;
    shares = share ∷ [];
    fetched = calls.fetch_distribution share.share_code;
    contract_id = share.fund_contract_id;
    key = share.share_code;
    artifact_share = some share.id;
  }

  -- First every fund's direct channel, then every share's distribution channel.
  abbrev pub planned : List FundContract → List Call
  planned funds = map direct_call funds ++ map distribution_call (all_shares funds)

  abbrev pub storing : Call → PurchaseLimitSnapshot → Tables → Outcome SnapshotError (ℕ × Tables)
  storing call snapshot tables =
      store_snapshot calls.check_texts (codes_of call.shares) (calls.artifact_id tables) run_id
        call.contract_id call.artifact_share snapshot (calls.archive call.key snapshot) tables

  -- A call raises what its provider or the storing raises, or stores the snapshot.
  pub data Step (call : Call) (tables : Tables) : Raised ⊎ (ℕ × Tables) → Type 0 where
    unfetched :
        (text : String) → call.fetched ≡ inl text → Step call tables (inl (fetch_failed text))
    unstored :
        (snapshot : PurchaseLimitSnapshot) (error : SnapshotError)
        → call.fetched ≡ inr snapshot
        → storing call snapshot tables ≡ thrown error
        → Step call tables (inl (store_failed error))
    stores :
        (snapshot : PurchaseLimitSnapshot) (stored : ℕ × Tables)
        → call.fetched ≡ inr snapshot
        → storing call snapshot tables ≡ done stored
        → Step call tables (inr stored)

  -- The calls in their order, from tables to tables: the calls that raise, which leave the tables as
  -- they are, and the number of the records that the others write.
  pub data Trace : List Call → Tables → List Call → ℕ → Tables → Type 0 where
    ended : (tables : Tables) → Trace [] tables [] 0 tables
    raises :
        (call : Call) (error : Raised) (rest raised : List Call) (tables after : Tables)
        (written : ℕ)
        → Step call tables (inl error)
        → Trace rest tables raised written after
        → Trace (call ∷ rest) tables (call ∷ raised) written after
    returns :
        (call : Call) (count : ℕ) (rest raised : List Call) (tables middle after : Tables)
        (written : ℕ)
        → Step call tables (inr (count, middle))
        → Trace rest middle raised written after
        → Trace (call ∷ rest) tables raised (count + written) after

  abbrev attempt : Call → Tables → Raised ⊎ (ℕ × Tables)
  attempt call tables =
      store_fetched calls run_id call.contract_id call.shares call.key call.artifact_share
        call.fetched tables

  abbrev outcome_of : Outcome SnapshotError (ℕ × Tables) → Raised ⊎ (ℕ × Tables)
  outcome_of (done stored) = inr stored
  outcome_of (thrown error) = inl (store_failed error)

  attempt-stored :
      (call : Call) (tables : Tables) (snapshot : PurchaseLimitSnapshot)
      → store_fetched calls run_id call.contract_id call.shares call.key call.artifact_share
          (inr snapshot)
          tables
        ≡ outcome_of (storing call snapshot tables)
  unfolding store_fetched
  attempt-stored call tables snapshot = elim (Outcome-cases (storing call snapshot tables)) [
    | inl (error, h) ↦ by_outcome h ∙ sym (ap outcome_of h)
    | inr (stored, h) ↦ by_outcome h ∙ sym (ap outcome_of h)
  ]
    where
      by_outcome :
          {o : Outcome SnapshotError (ℕ × Tables)}
          → storing call snapshot tables ≡ o
          → store_fetched calls run_id call.contract_id call.shares call.key call.artifact_share
              (inr snapshot)
              tables
            ≡ elim o [ done stored ↦ inr stored | thrown error ↦ inl (store_failed error) ]
      by_outcome h =
          unfold store_fetched in
          ap (λ o. elim o [ done stored ↦ inr stored | thrown error ↦ inl (store_failed error) ]) h

  pub attempt-Step :
      (call : Call) (tables : Tables) (fetched : String ⊎ PurchaseLimitSnapshot)
      → call.fetched ≡ fetched
      → Step call tables (
          store_fetched calls run_id call.contract_id call.shares call.key call.artifact_share
            fetched tables)
  unfolding store_fetched
  attempt-Step call tables (inl text) h = Step.unfetched text h
  attempt-Step call tables (inr snapshot) h =
      subst (Step call tables) (sym (attempt-stored call tables snapshot))
        (elim (Outcome-cases (storing call snapshot tables)) [
          | inl (error, k) ↦
              subst (λ o. Step call tables (outcome_of o)) (sym k)
                (Step.unstored snapshot error h k)
          | inr (stored, k) ↦
              subst (λ o. Step call tables (outcome_of o)) (sym k) (Step.stores snapshot stored h k)
        ])

  abbrev pub run_calls : List Call → Progress → Progress
  run_calls [] progress = progress
  run_calls (call ∷ rest) progress =
      run_calls rest
        (end_call calls run_id call.provider call.shares progress (attempt call progress.tables))

  pub run_calls-append :
      (first rest : List Call) (progress : Progress)
      → run_calls (first ++ rest) progress ≡ run_calls rest (run_calls first progress)
  run_calls-append [] rest progress = refl
  run_calls-append (call ∷ first) rest progress = run_calls-append first rest _

  pub direct_rounds-eq :
      (funds : List FundContract) (progress : Progress)
      → direct_rounds calls run_id funds progress ≡ run_calls (map direct_call funds) progress
  unfolding direct_rounds
  direct_rounds-eq [] progress = refl
  direct_rounds-eq (fund ∷ funds) progress = direct_rounds-eq funds _

  pub distribution_rounds-eq :
      (shares : List FundShare) (progress : Progress)
      → distribution_rounds calls run_id shares progress
        ≡ run_calls (map distribution_call shares) progress
  unfolding distribution_rounds
  distribution_rounds-eq [] progress = refl
  distribution_rounds-eq (share ∷ shares) progress = distribution_rounds-eq shares _
