-- ===== src/Ingestion/Limits/Schema.antt =====
-- The records of a purchase-limit provider (ingestion/providers/base.py), the table
-- daily_purchase_limit and the table source_artifact of models.py.
use qdii_observatory.Common.{
  ℕ, String, Bool, true, ◌&&◌, Option, none, some, List, [], ◌∷◌, str_eq, leb, anyb,
}
use qdii_observatory.Common.Decimal.{Decimal, whole, less, at_most}

pub record PurchaseLimitRecord : Type 0 where
  pub share_code : String
  pub channel_type : String
  pub channel_key : String
  pub channel_name : String
  pub business_type : String
  pub availability_state : String
  pub cap_state : String
  pub limit_amount : Option Decimal
  pub currency : String
  pub limit_basis : String
  pub limit_scope : String
  pub effective_from : Option ℕ
  pub effective_to : Option ℕ
  pub source_published_at : Option ℕ
  pub raw_text : String
  pub confidence : Option Decimal

-- `snapshot_date` is the day of `observed_at` in Shanghai.
pub record PurchaseLimitSnapshot : Type 0 where
  pub provider_name : String
  pub provider_version : String
  pub observed_at : ℕ
  pub snapshot_date : ℕ
  pub records : List PurchaseLimitRecord
  pub source_url : String
  pub mime_type : String
  pub artifact_type : String

pub record DailyPurchaseLimit : Type 0 where
  pub fund_share_id : ℕ
  pub snapshot_date : ℕ
  pub channel_type : String
  pub channel_key : String
  pub channel_name : String
  pub business_type : String
  pub availability_state : String
  pub cap_state : String
  pub daily_limit_amount : Option Decimal
  pub currency : String
  pub limit_basis : String
  pub share_scope : String
  pub effective_from : Option ℕ
  pub effective_to : Option ℕ
  pub source_provider : String
  pub source_url : String
  pub source_published_at : Option ℕ
  pub fetched_at : ℕ
  pub source_artifact_id : ℕ
  pub raw_payload_hash : String
  pub raw_text : String
  pub confidence : Option Decimal

pub record SourceArtifact : Type 0 where
  pub id : ℕ
  pub ingestion_run_id : Option ℕ
  pub fund_contract_id : Option ℕ
  pub fund_share_id : Option ℕ
  pub artifact_type : String
  pub source_provider : String
  pub source_url : String
  pub local_path : String
  pub mime_type : String
  pub sha256 : String
  pub byte_size : ℕ
  pub fetched_at : ℕ

-- The key of a limit within a share, a date and a provider.
pub record Identity : Type 0 where
  pub channel_type : String
  pub channel_key : String
  pub business_type : String
  pub limit_basis : String
  pub limit_scope : String

-- `_record_identity` and `_row_identity`
abbrev pub record_identity : PurchaseLimitRecord → Identity
record_identity r = record {
  channel_type = r.channel_type;
  channel_key = r.channel_key;
  business_type = r.business_type;
  limit_basis = r.limit_basis;
  limit_scope = r.limit_scope;
}

abbrev pub row_identity : DailyPurchaseLimit → Identity
row_identity row = record {
  channel_type = row.channel_type;
  channel_key = row.channel_key;
  business_type = row.business_type;
  limit_basis = row.limit_basis;
  limit_scope = row.share_scope;
}

-- Equality of the two tuples.
unfoldable pub same_identity : Identity → Identity → Bool
same_identity a b =
    str_eq a.channel_type b.channel_type
    && str_eq a.channel_key b.channel_key
    && str_eq a.business_type b.business_type
    && str_eq a.limit_basis b.limit_basis
    && str_eq a.limit_scope b.limit_scope

abbrev pub one_of : List String → String → Bool
one_of names name = anyb (λ n. str_eq name n) names

-- `amount_matches_cap_state`
unfoldable pub amount_matches : String → Option Decimal → Bool
unfolding less
amount_matches cap_state none = one_of ("UNLIMITED" ∷ "UNKNOWN" ∷ []) cap_state
amount_matches cap_state (some amount) = str_eq cap_state "LIMITED" && less (whole 0) amount

unfoldable pub dates_in_order : Option ℕ → Option ℕ → Bool
dates_in_order (some from) (some to) = leb from to
dates_in_order (some from) none = true
dates_in_order none to = true

unfoldable pub confidence_in_range : Option Decimal → Bool
unfolding less
confidence_in_range none = true
confidence_in_range (some c) = at_most (whole 0) c && at_most c (whole 1)

-- The CHECK constraints of a limit. `texts` stands for those on the form of its texts, which call
-- SQL's length, trim and upper.
unfoldable pub check_limit : (DailyPurchaseLimit → Bool) → DailyPurchaseLimit → Bool
unfolding amount_matches dates_in_order confidence_in_range
check_limit texts row =
    one_of ("DIRECT" ∷ "DISTRIBUTION" ∷ []) row.channel_type
    && one_of ("PURCHASE" ∷ "RECURRING_INVESTMENT" ∷ "CONVERSION_IN" ∷ []) row.business_type
    && one_of ("OPEN" ∷ "PAUSED" ∷ "UNKNOWN" ∷ "NOT_SOLD" ∷ "NOT_APPLICABLE" ∷ [])
        row.availability_state
    && one_of ("LIMITED" ∷ "UNLIMITED" ∷ "UNKNOWN" ∷ []) row.cap_state
    && one_of ("PER_ACCOUNT_PER_DAY" ∷ "UNKNOWN" ∷ []) row.limit_basis
    && one_of ("PER_SHARE" ∷ "ALL_SHARES_COMBINED" ∷ "UNKNOWN" ∷ []) row.share_scope
    && amount_matches row.cap_state row.daily_limit_amount
    && dates_in_order row.effective_from row.effective_to
    && confidence_in_range row.confidence
    && texts row
