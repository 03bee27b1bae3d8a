-- ===== src/Ingestion/Limits/Store.antt =====
-- `_validate_records` and `_store_snapshot` of ingestion/limit_pipeline.py. UNIQUE
-- (fund_share_id, snapshot_date, …, source_provider) lets its columns name the row that an object
-- of the session stands for.
use qdii_observatory.Common.{
  ℕ, String, ◌⊎◌, inl, inr, Bool, true, false, not, ◌&&◌, Option, none, some, List, [], ◌∷◌, ◌==◌,
  str_eq, if◌then◌else◌, is_some, length, filterb, first, anyb, allb, update_first, distinct,
}
use qdii_observatory.Common.Outcomes.{Outcome, thrown, done, ◌>>◌, ◌>>=◌, require}
use qdii_observatory.Ingestion.Limits.Schema.{
  PurchaseLimitRecord, PurchaseLimitSnapshot, DailyPurchaseLimit, SourceArtifact, Identity,
  record_identity, row_identity, same_identity, check_limit,
}

-- The exceptions of a call: the ValueErrors of the code, what `archive_bytes` raises, with its text,
-- and an IntegrityError of the flush.
pub data SnapshotError : Type 0 where
  no_records : SnapshotError
  unexpected_code : String → SnapshotError
  duplicate_key : String → Identity → SnapshotError
  archive_failed : String → SnapshotError
  integrity_error : SnapshotError

-- `shares_by_code`, with the id of each share.
abbrev pub SharesByCode : Type 0
SharesByCode = List (String × ℕ)

unfoldable pub share_id_of : SharesByCode → String → Option ℕ
share_id_of [] code = none
share_id_of ((c, id) ∷ rest) code = if str_eq c code then some id else share_id_of rest code

-- The identities seen so far, with their share codes.
abbrev pub is_seen : List (String × Identity) → String → Identity → Bool
is_seen seen code identity =
    anyb (λ (s : String × Identity). str_eq s.0 code && same_identity s.1 identity) seen

unfoldable pub validate_from :
    SharesByCode
    → List (String × Identity)
    → List PurchaseLimitRecord
    → Outcome SnapshotError (Unit {0})
unfolding share_id_of same_identity
validate_from shares seen [] = done tt
validate_from shares seen (r ∷ rest) = do
  require (is_some (share_id_of shares r.share_code)) (unexpected_code r.share_code)
  require (not (is_seen seen r.share_code (record_identity r)))
      (duplicate_key r.share_code (record_identity r))
  validate_from shares ((r.share_code, record_identity r) ∷ seen) rest

unfoldable pub validate_records :
    SharesByCode → List PurchaseLimitRecord → Outcome SnapshotError (Unit {0})
unfolding validate_from
validate_records shares records = validate_from shares [] records

-- What `archive_bytes` returns for the payload.
pub record Archived : Type 0 where
  pub sha256 : String
  pub local_path : String
  pub byte_size : ℕ
  pub fetched_at : ℕ

abbrev pub archiving : String ⊎ Archived → Outcome SnapshotError Archived
archiving (inl text) = thrown (archive_failed text)
archiving (inr archived) = done archived

abbrev pub is_artifact : String → String → SourceArtifact → Bool
is_artifact provider sha256 artifact =
    str_eq artifact.source_provider provider && str_eq artifact.sha256 sha256

-- The artifact of this provider and content, which is added if there is none.
unfoldable pub store_artifact :
    ℕ
    → ℕ
    → ℕ
    → Option ℕ
    → PurchaseLimitSnapshot
    → Archived
    → List SourceArtifact
    → SourceArtifact × List SourceArtifact
store_artifact id run_id contract_id share_id snapshot archived artifacts =
    elim (first (is_artifact snapshot.provider_name archived.sha256) artifacts) [
      | some artifact ↦ (artifact, artifacts)
      | none ↦
          let artifact : SourceArtifact = record {
            id = id;
            ingestion_run_id = some run_id;
            fund_contract_id = some contract_id;
            fund_share_id = share_id;
            artifact_type = snapshot.artifact_type;
            source_provider = snapshot.provider_name;
            source_url = snapshot.source_url;
            local_path = archived.local_path;
            mime_type = snapshot.mime_type;
            sha256 = archived.sha256;
            byte_size = archived.byte_size;
            fetched_at = archived.fetched_at;
          } in
          (artifact, artifact ∷ artifacts)
    ]

-- The assignments to a row, new or old.
unfoldable pub fill :
    PurchaseLimitSnapshot
    → ℕ
    → String
    → PurchaseLimitRecord
    → DailyPurchaseLimit
    → DailyPurchaseLimit
fill snapshot artifact_id sha256 r row = record row {
  channel_name = r.channel_name;
  availability_state = r.availability_state;
  cap_state = r.cap_state;
  daily_limit_amount = r.limit_amount;
  currency = r.currency;
  effective_from = r.effective_from;
  effective_to = r.effective_to;
  source_url = snapshot.source_url;
  source_published_at = r.source_published_at;
  fetched_at = snapshot.observed_at;
  source_artifact_id = artifact_id;
  raw_payload_hash = sha256;
  raw_text = r.raw_text;
  confidence = r.confidence;
}

unfoldable pub new_limit :
    PurchaseLimitSnapshot → ℕ → String → ℕ → PurchaseLimitRecord → DailyPurchaseLimit
new_limit snapshot artifact_id sha256 share_id r = record {
  fund_share_id = share_id;
  snapshot_date = snapshot.snapshot_date;
  channel_type = r.channel_type;
  channel_key = r.channel_key;
  channel_name = r.channel_name;
  business_type = r.business_type;
  availability_state = r.availability_state;
  cap_state = r.cap_state;
  daily_limit_amount = r.limit_amount;
  currency = r.currency;
  limit_basis = r.limit_basis;
  share_scope = r.limit_scope;
  effective_from = r.effective_from;
  effective_to = r.effective_to;
  source_provider = snapshot.provider_name;
  source_url = snapshot.source_url;
  source_published_at = r.source_published_at;
  fetched_at = snapshot.observed_at;
  source_artifact_id = artifact_id;
  raw_payload_hash = sha256;
  raw_text = r.raw_text;
  confidence = r.confidence;
}

-- The rows of a share in the snapshot, and the one of them with an identity.
abbrev pub in_group : PurchaseLimitSnapshot → ℕ → DailyPurchaseLimit → Bool
in_group snapshot share_id row =
    row.fund_share_id == share_id
    && row.snapshot_date == snapshot.snapshot_date
    && str_eq row.source_provider snapshot.provider_name

abbrev pub has_identity : Identity → DailyPurchaseLimit → Bool
has_identity key row = same_identity (row_identity row) key

abbrev pub is_row : PurchaseLimitSnapshot → ℕ → Identity → DailyPurchaseLimit → Bool
is_row snapshot share_id key row = in_group snapshot share_id row && has_identity key row

-- `key in current_keys`
abbrev pub is_current : List PurchaseLimitRecord → DailyPurchaseLimit → Bool
is_current records row = anyb (λ r. has_identity (record_identity r) row) records

-- `artifact_id` and `sha256` are those of the stored artifact.
module _ (snapshot : PurchaseLimitSnapshot) (artifact_id : ℕ) (sha256 : String) (share_id : ℕ) where
  -- The body of the loop over the records of a share. `existing` are the rows that were read.
  unfoldable pub write_record :
      List DailyPurchaseLimit
      → PurchaseLimitRecord
      → List DailyPurchaseLimit
      → List DailyPurchaseLimit
  unfolding same_identity fill new_limit
  write_record existing r rows = elim (first (has_identity (record_identity r)) existing) [
    | none ↦ new_limit snapshot artifact_id sha256 share_id r ∷ rows
    | some row ↦
        update_first (is_row snapshot share_id (record_identity r))
          (fill snapshot artifact_id sha256 r) rows
  ]

  unfoldable pub write_records :
      List DailyPurchaseLimit
      → List PurchaseLimitRecord
      → List DailyPurchaseLimit
      → List DailyPurchaseLimit
  unfolding write_record
  write_records existing [] rows = rows
  write_records existing (r ∷ rest) rows =
      write_records existing rest (write_record existing r rows)

  -- The last loop: rows that were read and are not in the snapshot any more are deleted.
  unfoldable pub delete_stale :
      List PurchaseLimitRecord
      → List DailyPurchaseLimit
      → List DailyPurchaseLimit
      → List DailyPurchaseLimit
  unfolding same_identity
  delete_stale records [] rows = rows
  delete_stale records (row ∷ rest) rows = delete_stale records rest (
      if is_current records row
      then rows
      else filterb (λ x. not (is_row snapshot share_id (row_identity row) x)) rows)

  unfoldable pub store_group :
      List PurchaseLimitRecord → List DailyPurchaseLimit → List DailyPurchaseLimit
  unfolding write_records delete_stale
  store_group records rows =
      let existing = filterb (in_group snapshot share_id) rows in
      delete_stale records existing (write_records existing records rows)

-- The records of a share, and the shares of the records in the order of `grouped`.
abbrev pub is_for : SharesByCode → ℕ → PurchaseLimitRecord → Bool
is_for shares id r = elim (share_id_of shares r.share_code) [ none ↦ false | some i ↦ i == id ]

unfoldable pub share_ids : SharesByCode → List PurchaseLimitRecord → List ℕ
unfolding share_id_of
share_ids shares [] = []
share_ids shares (r ∷ rest) = elim (share_id_of shares r.share_code) [
  | none ↦ share_ids shares rest
  | some id ↦ id ∷ share_ids shares rest
]

unfoldable pub store_groups :
    SharesByCode
    → PurchaseLimitSnapshot
    → ℕ
    → String
    → List ℕ
    → List DailyPurchaseLimit
    → List DailyPurchaseLimit
unfolding store_group share_id_of
store_groups shares snapshot artifact_id sha256 [] rows = rows
store_groups shares snapshot artifact_id sha256 (id ∷ ids) rows =
    store_groups shares snapshot artifact_id sha256 ids (
      store_group snapshot artifact_id sha256 id (filterb (is_for shares id) snapshot.records) rows)

-- The two tables that a snapshot is stored in.
pub record Tables : Type 0 where
  pub artifacts : List SourceArtifact
  pub limits : List DailyPurchaseLimit

abbrev pub is_empty : List PurchaseLimitRecord → Bool
is_empty [] = true
is_empty (r ∷ rs) = false

-- `_store_snapshot`: the number of records written. `artifact_id` is drawn by the database, and
-- `answer` is what `archive_bytes` raises or returns. The flush at the end checks the rows.
unfoldable pub store_snapshot :
    (DailyPurchaseLimit → Bool)
    → SharesByCode
    → ℕ
    → ℕ
    → ℕ
    → Option ℕ
    → PurchaseLimitSnapshot
    → String ⊎ Archived
    → Tables
    → Outcome SnapshotError (ℕ × Tables)
unfolding validate_records store_artifact store_groups share_ids distinct check_limit
store_snapshot texts shares id run_id contract_id artifact_share snapshot answer tables = do
  require (not (is_empty snapshot.records)) no_records
  validate_records shares snapshot.records
  let archived = (← archiving answer)
  let (artifact, artifacts) =
      store_artifact id run_id contract_id artifact_share snapshot archived tables.artifacts
  let limits =
      store_groups shares snapshot artifact.id archived.sha256
        (distinct (share_ids shares snapshot.records)) tables.limits
  require (allb (check_limit texts) limits) integrity_error
  done (length snapshot.records, record { artifacts = artifacts; limits = limits })
