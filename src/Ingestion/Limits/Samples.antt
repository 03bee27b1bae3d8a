-- ===== src/Ingestion/Limits/Samples.antt =====
-- The theorems on purchase limits at a fund of two shares, whose direct channel answers and whose
-- distribution channel fails for one share.
use qdii_observatory.Common.{
  ◌≡◌, refl, String, Bool, true, false, inl, inr, none, some, List, [], ◌∷◌, arith, str_eq,
  if◌then◌else◌, distinct,
}
use qdii_observatory.Common.Decimal.{whole, less}
use qdii_observatory.Ingestion.Issues.{IngestionRun, DataQualityIssue}
use qdii_observatory.Ingestion.Samples.{next_id, next_id-Fresh, no_issues-IsSingle}
use qdii_observatory.Common.Outcomes.{done}
use qdii_observatory.Ingestion.Limits.Schema.{
  PurchaseLimitRecord, PurchaseLimitSnapshot, DailyPurchaseLimit, SourceArtifact, check_limit,
}
use qdii_observatory.Ingestion.Limits.Store.{Archived, Tables, new_limit, store_snapshot}
use qdii_observatory.Ingestion.Limits.Snapshots.{IsUnique, Stored, store_snapshot-Stored}
use qdii_observatory.Ingestion.Limits.Audit.{
  FundShare, Texts, Audited, audit_share_coverage, audit_share_coverage-Audited,
}
use qdii_observatory.Ingestion.Limits.Sync.{
  FundContract, Calls, codes_of, selected_funds, sync_purchase_limits, fetch_all,
}
use qdii_observatory.Ingestion.Limits.Codes.{codes_of-OneCode}
use qdii_observatory.Ingestion.Limits.Invariant.{IsValid, Holds, fetch_all-Holds}
use qdii_observatory.Ingestion.Limits.Synced.{Synced, sync_purchase_limits-Synced}

abbrev share_a : FundShare
share_a = record {
  id = 1;
  fund_contract_id = 3;
  share_code = "017436";
  is_exchange_traded = false;
  currency = "CNY";
}

abbrev share_c : FundShare
share_c = record {
  id = 2;
  fund_contract_id = 3;
  share_code = "017437";
  is_exchange_traded = false;
  currency = "CNY";
}

abbrev shares : List FundShare
shares = share_a ∷ share_c ∷ []

abbrev fund : FundContract
fund = record { id = 3; representative_code = "017436"; is_user_selected = true; shares = shares }

abbrev limited : String → PurchaseLimitRecord
limited code = record {
  share_code = code;
  channel_type = "DIRECT";
  channel_key = "COMPANY";
  channel_name = "Company";
  business_type = "PURCHASE";
  availability_state = "OPEN";
  cap_state = "LIMITED";
  limit_amount = some (whole 50);
  currency = "CNY";
  limit_basis = "PER_ACCOUNT_PER_DAY";
  limit_scope = "UNKNOWN";
  effective_from = none;
  effective_to = none;
  source_published_at = none;
  raw_text = "50";
  confidence = none;
}

abbrev snapshot : PurchaseLimitSnapshot
snapshot = record {
  provider_name = "company";
  provider_version = "1";
  observed_at = 100;
  snapshot_date = 20240105;
  records = limited "017436" ∷ limited "017437" ∷ [];
  source_url = "https://example.com";
  mime_type = "text/html";
  artifact_type = "WEB_PAGE";
}

abbrev archived : Archived
archived = record { sha256 = "ab"; local_path = "raw/ab"; byte_size = 9; fetched_at = 100 }

abbrev any_text : DailyPurchaseLimit → Bool
any_text row = true

abbrev no_tables : Tables
no_tables = record { artifacts = []; limits = [] }

abbrev artifact : SourceArtifact
artifact = record {
  id = 7;
  ingestion_run_id = some 8;
  fund_contract_id = some 3;
  fund_share_id = none;
  artifact_type = "WEB_PAGE";
  source_provider = "company";
  source_url = "https://example.com";
  local_path = "raw/ab";
  mime_type = "text/html";
  sha256 = "ab";
  byte_size = 9;
  fetched_at = 100;
}

abbrev tables_stored : Tables
unfolding new_limit
tables_stored = record {
  artifacts = artifact ∷ [];
  limits =
      new_limit snapshot 7 "ab" 2 (limited "017437")
      ∷ new_limit snapshot 7 "ab" 1 (limited "017436")
      ∷ [];
}

snapshot_stored :
    store_snapshot any_text (codes_of shares) 7 8 3 none snapshot (inr archived) no_tables
    ≡ done (2, tables_stored)
unfolding store_snapshot tables_stored distinct less check_limit new_limit
snapshot_stored = refl

no_tables-IsUnique : (s : PurchaseLimitSnapshot) → IsUnique s no_tables
no_tables-IsUnique s = record {
  limits = λ share_id key. omega arith;
  artifacts = λ provider sha256. omega arith;
}

store_snapshot-Stored_example :
    Stored any_text (codes_of shares) snapshot archived no_tables tables_stored 2
store_snapshot-Stored_example =
    store_snapshot-Stored any_text (codes_of shares) 7 8 3 none snapshot archived no_tables
      tables_stored 2 (codes_of-OneCode shares (refl, (refl, tt))) (no_tables-IsUnique snapshot)
      snapshot_stored

abbrev texts : Texts
texts = record {
  message = λ code share_code. code;
  incomplete_details = λ date missing unknown. "incomplete";
  ambiguous_details = λ rows. "ambiguous";
}

abbrev calls : Calls
calls = record {
  direct_name = "company";
  distribution_name = "distributor";
  fetch_direct = λ code shares. inr snapshot;
  fetch_distribution = λ code. if str_eq code "017437" then inl "timeout" else inr snapshot;
  archive = λ key s. inr archived;
  artifact_id = λ tables. 7;
  issue_ids = next_id;
  check_texts = any_text;
  texts = texts;
  failed_details = λ failures. "failed";
  parameters = "{}";
}

no_tables-IsValid : IsValid any_text no_tables
no_tables-IsValid = record { checked = refl; unique = no_tables-IsUnique }

audit_share_coverage-Audited_example :
    (issues : List DataQualityIssue) × (audit_share_coverage texts next_id 500 8 share_a
        (some 20240105)
        tables_stored.limits
        []
      ≡ some issues)
    × Audited share_a (some 20240105) tables_stored.limits [] issues
unfolding tables_stored
audit_share_coverage-Audited_example =
    audit_share_coverage-Audited texts next_id 500 8 share_a (some 20240105) tables_stored.limits
      next_id-Fresh [] no_issues-IsSingle

fetch_all-Holds_example : Holds calls (fetch_all calls 8 (fund ∷ []) no_tables)
fetch_all-Holds_example =
    fetch_all-Holds calls 8 (fund ∷ []) no_tables (refl, (refl, tt)) no_tables-IsValid

sync_purchase_limits-Synced_example :
    (run : IngestionRun) × (tables : Tables) × (issues : List DataQualityIssue)
    × (sync_purchase_limits calls 8 500 none (fund ∷ []) [] no_tables []
        ≡ some (run, tables, issues))
    × Synced calls 8 500 none (fund ∷ []) [] no_tables [] run tables issues
unfolding selected_funds
sync_purchase_limits-Synced_example =
    sync_purchase_limits-Synced calls 8 500 none (fund ∷ []) [] no_tables [] next_id-Fresh
      (refl, (refl, tt)) no_tables-IsValid no_issues-IsSingle
