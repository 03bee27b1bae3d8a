-- ===== src/Ingestion/Limits/Snapshots.antt =====
-- `_store_snapshot` as a whole: its validation makes the identities of a share unique, and its
-- tables then hold exactly the records of the snapshot.

use qdii_observatory.Common.{
  All, ◌||◌, ℕ, ◌≤◌, ◌≡◌, sym, ◌∙◌, String, Bool, true, not, ◌&&◌, inr, Option, List, ◌==◌, str_eq,
  arith, if◌then◌else◌, filterb, countb, allb, memb, length, distinct,
}
use qdii_observatory.Common.Rows.{
  countb_pos, mem-filterb_of, countb-filterb, countb-distinct, memb-distinct,
}
use qdii_observatory.Common.Outcomes.{done, then-inv, require-inv}
use qdii_observatory.Ingestion.Limits.Schema.{
  PurchaseLimitRecord, PurchaseLimitSnapshot, DailyPurchaseLimit, Identity, record_identity,
  SourceArtifact, check_limit,
}
use qdii_observatory.Ingestion.Limits.Store.{
  SharesByCode, validate_records, Archived, is_artifact, store_artifact, Tables, is_row, no_records,
  integrity_error, is_empty, is_for, share_ids, store_groups, store_snapshot,
}
use qdii_observatory.Ingestion.Limits.Identities.{is_key, same_identity_refl}
use mathlib.Core.List.{Memᴰ}
use qdii_observatory.Ingestion.Limits.Columns.{Carries}
use qdii_observatory.Ingestion.Limits.Artifacts.{store_artifact-listed, store_artifact-once}
use qdii_observatory.Ingestion.Limits.Shares.{
  store_groups-others, count-store_groups, store_groups-Carries, share_ids-listed,
}
use qdii_observatory.Ingestion.Limits.Validated.{OneCode, validate_records-once}

-- At most one row of a share carries an identity in the snapshot's date and provider, and at most
-- one artifact has a provider and a content: the UNIQUE constraints of the two tables.
pub record IsUnique (snapshot : PurchaseLimitSnapshot) (tables : Tables) : Type 0 where
  pub limits :
      (share_id : ℕ) (key : Identity) → countb (is_row snapshot share_id key) tables.limits ≤ 1
  pub artifacts :
      (provider sha256 : String) → countb (is_artifact provider sha256) tables.artifacts ≤ 1

-- The rows of another date or of another provider.
abbrev pub is_other : PurchaseLimitSnapshot → DailyPurchaseLimit → Bool
is_other snapshot row = not (
    row.snapshot_date == snapshot.snapshot_date
    && str_eq row.source_provider snapshot.provider_name)

-- The rows of another date or provider, or of a share that the snapshot has no record of.
abbrev pub is_untouched : SharesByCode → PurchaseLimitSnapshot → DailyPurchaseLimit → Bool
is_untouched shares snapshot row =
    is_other snapshot row || not (memb row.fund_share_id (share_ids shares snapshot.records))

-- What a stored snapshot leaves: a share of the snapshot has exactly the identities of its records,
-- each once and with the columns of the record, and the other rows are as they were; the content is
-- an artifact, once, and the rows meet the CHECK constraints.
pub record Stored (texts : DailyPurchaseLimit → Bool) (shares : SharesByCode)
    (snapshot : PurchaseLimitSnapshot) (archived : Archived) (before after : Tables) (written : ℕ)
    : Type 0 where
  pub counted : written ≡ length snapshot.records
  pub identities :
      (share_id : ℕ) (key : Identity)
      → countb (is_row snapshot share_id key) after.limits ≡ (
          if memb share_id (share_ids shares snapshot.records)
          then countb (λ r. is_for shares share_id r && is_key key r) snapshot.records
          else countb (is_row snapshot share_id key) before.limits)
  pub artifact : SourceArtifact
  pub artifact_listed : Memᴰ artifact after.artifacts
  pub artifact_of : is_artifact snapshot.provider_name archived.sha256 artifact ≡ true
  pub carried :
      (share_id : ℕ) (r : PurchaseLimitRecord)
      → Memᴰ r snapshot.records
      → is_for shares share_id r ≡ true
      → (countb (is_row snapshot share_id (record_identity r)) after.limits ≡ 1)
        × All
            (Carries snapshot artifact.id archived.sha256 r)
            (filterb (is_row snapshot share_id (record_identity r)) after.limits)
  pub untouched :
      filterb (is_untouched shares snapshot) after.limits
      ≡ filterb (is_untouched shares snapshot) before.limits
  pub others : filterb (is_other snapshot) after.limits ≡ filterb (is_other snapshot) before.limits
  pub archived_once :
      countb (is_artifact snapshot.provider_name archived.sha256) after.artifacts ≡ 1
  pub checked : allb (check_limit texts) after.limits ≡ true
  pub unique : IsUnique snapshot after

module _ (texts : DailyPurchaseLimit → Bool) (shares : SharesByCode) (id run_id contract_id : ℕ)
    (artifact_share : Option ℕ) (snapshot : PurchaseLimitSnapshot) (archived : Archived)
    (before after : Tables) (written : ℕ) where
  abbrev artifact_stored : SourceArtifact × List SourceArtifact
  artifact_stored =
      store_artifact id run_id contract_id artifact_share snapshot archived before.artifacts

  abbrev limits_stored : List DailyPurchaseLimit
  limits_stored =
      store_groups shares snapshot artifact_stored.0.id archived.sha256
        (distinct (share_ids shares snapshot.records)) before.limits

  -- How a call ended that raised nothing.
  store_snapshot-inv :
      store_snapshot texts shares id run_id contract_id artifact_share snapshot
          (inr archived)
          before
        ≡ done (written, after)
      → (validate_records shares snapshot.records ≡ done tt)
        × (allb (check_limit texts) limits_stored ≡ true)
        × (written ≡ length snapshot.records)
        × (after ≡ record { artifacts = artifact_stored.1; limits = limits_stored })
  unfolding store_snapshot
  store_snapshot-inv e =
      let (full, e1) = require-inv (not (is_empty snapshot.records)) no_records _ e in
      let (valid, e2) = then-inv (validate_records shares snapshot.records) _ e1 in
      let (checked, e3) =
        require-inv (allb (check_limit texts) limits_stored) integrity_error _ e2 in
      (valid, checked, cc e3, cc e3)

  module _ (one_code : OneCode shares) (unique : IsUnique snapshot before)
      (valid : validate_records shares snapshot.records ≡ done tt) where
    record_once :
        (share_id : ℕ) (key : Identity)
        → countb (is_key key) (filterb (is_for shares share_id) snapshot.records) ≤ 1
    record_once share_id key = omega (
      arith,
      validate_records-once shares one_code share_id key snapshot.records valid,
      countb-filterb (is_key key) (is_for shares share_id) snapshot.records,
    )

    stored-counts :
        (share_id : ℕ) (key : Identity)
        → countb (is_row snapshot share_id key) limits_stored ≡ (
            if memb share_id (share_ids shares snapshot.records)
            then countb (λ r. is_for shares share_id r && is_key key r) snapshot.records
            else countb (is_row snapshot share_id key) before.limits)
    stored-counts share_id key =
        count-store_groups shares snapshot artifact_stored.0.id archived.sha256 share_id key
          (record_once share_id key) (distinct (share_ids shares snapshot.records)) before.limits
          (countb-distinct share_id (share_ids shares snapshot.records))
          (unique.limits share_id key)
        ∙ ground (
          arith,
          memb-distinct share_id (share_ids shares snapshot.records),
          countb-filterb (is_key key) (is_for shares share_id) snapshot.records,
        )

    stored-once :
        (share_id : ℕ) (key : Identity) → countb (is_row snapshot share_id key) limits_stored ≤ 1
    stored-once share_id key = ground (
      arith,
      stored-counts share_id key,
      unique.limits share_id key,
      validate_records-once shares one_code share_id key snapshot.records valid,
    )

    stored-Carries :
        (share_id : ℕ) (r : PurchaseLimitRecord)
        → Memᴰ r snapshot.records
        → is_for shares share_id r ≡ true
        → (countb (is_row snapshot share_id (record_identity r)) limits_stored ≡ 1)
          × All
              (Carries snapshot artifact_stored.0.id archived.sha256 r)
              (filterb (is_row snapshot share_id (record_identity r)) limits_stored)
    stored-Carries share_id r m h =
        let member = share_ids-listed shares share_id snapshot.records r m h in
        let brought =
          countb_pos (λ s. is_for shares share_id s && is_key (record_identity r) s)
            snapshot.records m (ground (arith, h, same_identity_refl (record_identity r))) in
        (
          ground (
            arith,
            stored-counts share_id (record_identity r),
            member,
            brought,
            validate_records-once shares one_code share_id (record_identity r) snapshot.records
                valid,
          ),
          store_groups-Carries shares snapshot artifact_stored.0.id archived.sha256 share_id r
              (record_once share_id (record_identity r))
              (mem-filterb_of (is_for shares share_id) snapshot.records m h)
              (distinct (share_ids shares snapshot.records)) before.limits
              (countb-distinct share_id (share_ids shares snapshot.records))
              (memb-distinct share_id (share_ids shares snapshot.records) ∙ member)
              (unique.limits share_id (record_identity r)),
        )

    stored-untouched :
        filterb (is_untouched shares snapshot) limits_stored
        ≡ filterb (is_untouched shares snapshot) before.limits
    stored-untouched =
        store_groups-others shares snapshot artifact_stored.0.id archived.sha256
          (is_untouched shares snapshot) (distinct (share_ids shares snapshot.records))
          before.limits
          (λ i m x k.
            let same : x.fund_share_id ≡ i = ground (arith, k) in
            let member : memb x.fund_share_id (share_ids shares snapshot.records) ≡ true =
              rw same (sym (memb-distinct i (share_ids shares snapshot.records)) ∙ m) in
            rw member (ground (arith, k)))

    stored-others :
        filterb (is_other snapshot) limits_stored ≡ filterb (is_other snapshot) before.limits
    stored-others =
        store_groups-others shares snapshot artifact_stored.0.id archived.sha256 (is_other snapshot)
          (distinct (share_ids shares snapshot.records)) before.limits
          (λ i m x k. ground (arith, k))

  -- If `_store_snapshot` returns, on tables that meet their UNIQUE constraints, where a share has
  -- one code: each share of the snapshot then has exactly the identities of its records for the date
  -- and the provider, each in one row, and this row has every column of the record and of the
  -- snapshot, with the archived content as its artifact, which is listed once for the provider; the
  -- number returned is that of the records; the rows of other shares, dates and providers are the
  -- same as before, in the same order; and the tables meet their CHECK and UNIQUE constraints.
  pub store_snapshot-Stored :
      OneCode shares
      → IsUnique snapshot before
      → store_snapshot texts shares id run_id contract_id artifact_share snapshot
          (inr archived)
          before
        ≡ done (written, after)
      → Stored texts shares snapshot archived before after written
  store_snapshot-Stored one_code unique e =
      let (valid, checked, counted, same) = store_snapshot-inv e in
      let artifacts =
        store_artifact-once id run_id contract_id artifact_share snapshot archived before.artifacts
          unique.artifacts in
      let listed =
        store_artifact-listed id run_id contract_id artifact_share snapshot archived
          before.artifacts in
      rw same (record {
        counted = counted;
        identities = stored-counts one_code unique valid;
        artifact = artifact_stored.0;
        artifact_listed = listed.0;
        artifact_of = listed.1;
        carried = stored-Carries one_code unique valid;
        untouched = stored-untouched one_code unique valid;
        others = stored-others one_code unique valid;
        archived_once = artifacts.0;
        checked = checked;
        unique = record { limits = stored-once one_code unique valid; artifacts = artifacts.1 };
      })
