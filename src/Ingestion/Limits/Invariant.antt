-- ===== src/Ingestion/Limits/Invariant.antt =====
-- The loops of `sync_purchase_limits` over the providers: whatever they return or raise, the tables
-- stay valid.
use qdii_observatory.Common.{
  not, ℕ, ◌≡◌, refl, sym, ap, ◌∙◌, String, Bool, true, false, ◌&&◌, inl, inr, Option, none, some,
  List, [], ◌∷◌, ◌⊎◌, ◌==◌, ==_iff, str_eq, eq_iff, arith, Bool-cases, countb, allb,
}
use qdii_observatory.Common.Rows.{countb-filterb, countb_congr}
use qdii_observatory.Common.Outcomes.{Outcome, thrown, done, Outcome-cases, require-inv, then-inv}
use qdii_observatory.Ingestion.Limits.Schema.{
  PurchaseLimitSnapshot, DailyPurchaseLimit, Identity, check_limit,
}
use qdii_observatory.Ingestion.Limits.Store.{
  SnapshotError, SharesByCode, Archived, Tables, is_row, store_snapshot, validate_records, is_empty,
  no_records,
}
use qdii_observatory.Ingestion.Limits.Validated.{OneCode}
use qdii_observatory.Ingestion.Limits.Snapshots.{IsUnique, is_other, store_snapshot-Stored}
use qdii_observatory.Ingestion.Limits.Audit.{FundShare}
use qdii_observatory.Ingestion.Limits.Sync.{
  FundContract, Raised, store_failed, Calls, Progress, codes_of, all_shares, store_fetched,
  end_call, direct_rounds, distribution_rounds, fetch_all,
}
use qdii_observatory.Ingestion.Limits.Rounds.{IsDistinct}
use qdii_observatory.Ingestion.Limits.Codes.{codes_of-OneCode, IsDistinct-append}

-- The CHECK and UNIQUE constraints of the two tables.
pub record IsValid (texts : DailyPurchaseLimit → Bool) (tables : Tables) : Type 0 where
  pub checked : allb (check_limit texts) tables.limits ≡ true
  pub unique : (snapshot : PurchaseLimitSnapshot) → IsUnique snapshot tables

row_is_other :
    (s t : PurchaseLimitSnapshot) (share_id : ℕ) (key : Identity) (row : DailyPurchaseLimit)
    → (t.snapshot_date == s.snapshot_date && str_eq t.provider_name s.provider_name) ≡ false
    → (is_other s row && is_row t share_id key row) ≡ is_row t share_id key row
row_is_other s t share_id key row h = elim (Bool-cases (is_row t share_id key row)) [
  | inr e ↦ rw e (ground arith)
  | inl e ↦
      let date : row.snapshot_date ≡ t.snapshot_date =
        (==_iff row.snapshot_date t.snapshot_date).0 (ground (arith, e)) in
      let provider : row.source_provider ≡ t.provider_name =
        (eq_iff row.source_provider t.provider_name).0 (ground (arith, e)) in
      let other : is_other s row ≡ true = rw (date, provider) (rw h refl) in rw (e, other) refl
]

module _ (texts : DailyPurchaseLimit → Bool) where
  -- A snapshot whose payload is not archived is not stored.
  store_snapshot-unarchived :
      (shares : SharesByCode) (id run_id contract_id : ℕ) (artifact_share : Option ℕ)
      (snapshot : PurchaseLimitSnapshot) (text : String) (before after : Tables) (written : ℕ)
      → store_snapshot texts shares id run_id contract_id artifact_share snapshot (inl text) before
        ≡ done (written, after)
      → ⊥
  unfolding store_snapshot
  store_snapshot-unarchived shares id run_id contract_id artifact_share s text before after written
        e =
      let (full, e1) = require-inv (not (is_empty s.records)) no_records _ e in
      let (valid, e2) = then-inv (validate_records shares s.records) _ e1 in cc e2

  store_snapshot-IsValid :
      (shares : SharesByCode) (id run_id contract_id : ℕ) (artifact_share : Option ℕ)
      (snapshot : PurchaseLimitSnapshot) (answer : String ⊎ Archived) (before after : Tables)
      (written : ℕ)
      → OneCode shares
      → store_snapshot texts shares id run_id contract_id artifact_share snapshot answer before
        ≡ done (written, after)
      → IsValid texts before
      → IsValid texts after
  store_snapshot-IsValid shares id run_id contract_id artifact_share s (inl text) before after
        written one_code e valid =
      absurd (
        store_snapshot-unarchived shares id run_id contract_id artifact_share s text before after
          written e)
  store_snapshot-IsValid shares id run_id contract_id artifact_share s (inr archived) before after
        written one_code e valid =
      let stored =
        store_snapshot-Stored texts shares id run_id contract_id artifact_share s archived before
          after written one_code (valid.unique s) e in
      record {
        checked = stored.checked;
        unique = λ t. record {
          artifacts = stored.unique.artifacts;
          limits = λ share_id key.
              elim (Bool-cases
                (t.snapshot_date == s.snapshot_date && str_eq t.provider_name s.provider_name)) [
                  | inl h ↦
                      let date : t.snapshot_date ≡ s.snapshot_date =
                        (==_iff t.snapshot_date s.snapshot_date).0 (ground (arith, h)) in
                      let provider : t.provider_name ≡ s.provider_name =
                        (eq_iff t.provider_name s.provider_name).0 (ground (arith, h)) in
                      rw (date, provider) (stored.unique.limits share_id key)
                  | inr h ↦ omega (
                    arith,
                    (valid.unique t).limits share_id key,
                    countb_congr _ (is_row t share_id key) before.limits
                        (λ row. row_is_other s t share_id key row h),
                    countb_congr _ (is_row t share_id key) after.limits
                        (λ row. row_is_other s t share_id key row h),
                    countb-filterb (is_row t share_id key) (is_other s) before.limits,
                    countb-filterb (is_row t share_id key) (is_other s) after.limits,
                    ap (countb (is_row t share_id key)) stored.others,
                  )
                ];
        };
      }

-- What a `try` makes of the result of `_store_snapshot`.
abbrev outcome_of : Outcome SnapshotError (ℕ × Tables) → Raised ⊎ (ℕ × Tables)
outcome_of (done stored) = inr stored
outcome_of (thrown error) = inl (store_failed error)

-- What holds of the local variables and the tables after each call.
pub record Holds (calls : Calls) (progress : Progress) : Type 0 where
  pub valid : IsValid calls.check_texts progress.tables
  pub clean : progress.failed_calls ≡ 0 → progress.failures ≡ []

module _ (calls : Calls) (run_id : ℕ) where
  store_fetched-IsValid :
      (contract_id : ℕ) (shares : List FundShare) (key : String) (artifact_share : Option ℕ)
      (fetched : String ⊎ PurchaseLimitSnapshot) (before after : Tables) (written : ℕ)
      → IsDistinct shares
      → store_fetched calls run_id contract_id shares key artifact_share fetched before
        ≡ inr (written, after)
      → IsValid calls.check_texts before
      → IsValid calls.check_texts after
  unfolding store_fetched
  store_fetched-IsValid contract_id shares key artifact_share (inl text) before after written
        distinct e valid =
      absurd (cc e)
  store_fetched-IsValid contract_id shares key artifact_share (inr snapshot) before after written
        distinct e valid =
      elim (Outcome-cases (
        store_snapshot calls.check_texts (codes_of shares) (calls.artifact_id before) run_id
          contract_id artifact_share snapshot (calls.archive key snapshot) before)) [
            | inl (error, h) ↦ absurd (cc (sym (ap outcome_of h) ∙ e))
            | inr ((count, tables), h) ↦
                let same : inr (count, tables) ≡ inr (written, after) = sym (ap outcome_of h) ∙ e in
                let stored : (count, tables) ≡ (written, after) = cc same in
                store_snapshot-IsValid calls.check_texts (codes_of shares)
                  (calls.artifact_id before) run_id contract_id artifact_share snapshot
                  (calls.archive key snapshot) before after written
                  (codes_of-OneCode shares distinct) (h ∙ ap done stored) valid
          ]

  end_call-Holds :
      (provider : String) (shares : List FundShare) (progress : Progress)
      (outcome : Raised ⊎ (ℕ × Tables))
      → ((written : ℕ) (tables : Tables)
          → outcome ≡ inr (written, tables)
          → IsValid calls.check_texts tables)
      → Holds calls progress
      → Holds calls (end_call calls run_id provider shares progress outcome)
  unfolding end_call
  end_call-Holds provider shares progress (inl error) keep holds = record {
    valid = holds.valid;
    clean = λ h. absurd (omega (arith, h));
  }
  end_call-Holds provider shares progress (inr (written, tables)) keep holds = record {
    valid = keep written tables refl;
    clean = holds.clean;
  }

  direct_rounds-Holds :
      (funds : List FundContract) (progress : Progress)
      → IsDistinct (all_shares funds)
      → Holds calls progress
      → Holds calls (direct_rounds calls run_id funds progress)
  unfolding direct_rounds
  direct_rounds-Holds [] progress distinct holds = holds
  direct_rounds-Holds (fund ∷ funds) progress distinct holds =
      let (here, rest) = IsDistinct-append fund.shares (all_shares funds) distinct in
      direct_rounds-Holds funds _ rest (
        end_call-Holds calls.direct_name fund.shares progress _
          (λ written tables e.
            store_fetched-IsValid fund.id fund.shares fund.representative_code none
              (calls.fetch_direct fund.representative_code fund.shares) progress.tables tables
              written here e holds.valid)
          holds)

  distribution_rounds-Holds :
      (shares : List FundShare) (progress : Progress)
      → Holds calls progress
      → Holds calls (distribution_rounds calls run_id shares progress)
  unfolding distribution_rounds
  distribution_rounds-Holds [] progress holds = holds
  distribution_rounds-Holds (share ∷ shares) progress holds = distribution_rounds-Holds shares _ (
      end_call-Holds calls.distribution_name (share ∷ []) progress _
        (λ written tables e.
          store_fetched-IsValid share.fund_contract_id (share ∷ []) share.share_code (some share.id)
            (calls.fetch_distribution share.share_code) progress.tables tables written (refl, tt) e
            holds.valid)
        holds)

  -- Where the ids of the shares of the funds are distinct: whatever the providers return or raise,
  -- the loops over them leave tables that meet their CHECK and UNIQUE constraints if they did
  -- before, and no failure is noted if no call failed.
  pub fetch_all-Holds :
      (funds : List FundContract) (tables : Tables)
      → IsDistinct (all_shares funds)
      → IsValid calls.check_texts tables
      → Holds calls (fetch_all calls run_id funds tables)
  unfolding fetch_all
  fetch_all-Holds funds tables distinct valid =
      distribution_rounds-Holds (all_shares funds) _
        (direct_rounds-Holds funds _ distinct (record { valid = valid; clean = λ h. refl }))
