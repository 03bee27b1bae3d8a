-- ===== src/Ingestion/Samples.antt =====
-- The theorems on issues at two reports of one fund, and on the look-through at two funds that hold
-- each other.
use mathlib.Core.List.{Memᴰ}
use qdii_observatory.Ingestion.Alarms.{Fresh, record_or_resolve, Alarmed, record_or_resolve-Alarmed}
use qdii_observatory.Common.{
  ℕ, suc, ◌+◌, ◌≤◌, ◌≡◌, refl, true, false, Option, none, some, List, [], ◌∷◌, arith, countb,
  min_by,
}
use qdii_observatory.Ingestion.Issues.{
  Context, DataQualityIssue, Report, has_issue_id, is_match, new_issue, record_issue, is_resolvable,
  resolve_issues,
}
use qdii_observatory.Common.Decimal.{whole, scaled, less}
use qdii_observatory.Ingestion.Lookthrough.{Nodes, LookthroughResult, weighted_lookthrough}
use qdii_observatory.Ingestion.Depth.{IsBounded, weighted_lookthrough-IsBounded}
use qdii_observatory.Ingestion.OpenIssues.{
  record_issue-Holds, IsSingle, Holds, record_issue-IsSingle,
}
use qdii_observatory.Ingestion.Closing.{resolve_issues_lem, record_issue-resolve_issues}

abbrev fund : Context
fund = record { fund_contract_id = some 3; fund_report_id = none; fund_share_id = some 5 }

abbrev failed_sync : Report
failed_sync = record {
  issue_code = "SALES_LIMIT_SYNC_FAILED";
  severity = "ERROR";
  message = "Sales-limit sync failed for 017436";
  details = "{}";
  ingestion_run_id = some 8;
  context = fund;
}

abbrev again : Report
again = record failed_sync { message = "Sales-limit sync failed again"; ingestion_run_id = some 9 }

abbrev first_issue : DataQualityIssue
unfolding new_issue
first_issue = new_issue 1 100 failed_sync

abbrev table : List DataQualityIssue
unfolding first_issue
table = first_issue ∷ []

recorded : record_issue 1 100 failed_sync [] ≡ some (first_issue, table)
unfolding record_issue min_by table
recorded = refl

renewed :
    record_issue 2 200 again table
    ≡ some (
      record first_issue {
        message = "Sales-limit sync failed again";
        ingestion_run_id = some 9;
        detected_at = 200;
      },
      record first_issue {
        message = "Sales-limit sync failed again";
        ingestion_run_id = some 9;
        detected_at = 200;
      }
          ∷ [],
    )
unfolding record_issue min_by table
renewed = refl

empty-IsSingle : IsSingle []
empty-IsSingle = record { open_one = λ c k. omega arith; ids_one = λ i. omega arith }

record_issue-IsSingle_example : IsSingle table × Holds failed_sync 100 first_issue table
record_issue-IsSingle_example =
    record_issue-IsSingle 1 100 failed_sync [] refl empty-IsSingle first_issue table recorded

resolve_issues_lem_example :
    ((resolve_issues 300 ("SALES_LIMIT_SYNC_FAILED" ∷ []) fund table).0
      ≡ countb (is_resolvable ("SALES_LIMIT_SYNC_FAILED" ∷ []) fund) table)
    × (countb
          (is_resolvable ("SALES_LIMIT_SYNC_FAILED" ∷ []) fund)
          (resolve_issues 300 ("SALES_LIMIT_SYNC_FAILED" ∷ []) fund table).1
        ≡ 0)
    × ((x : DataQualityIssue)
        → Memᴰ x table
        → is_resolvable ("SALES_LIMIT_SYNC_FAILED" ∷ []) fund x ≡ false
        → Memᴰ x (resolve_issues 300 ("SALES_LIMIT_SYNC_FAILED" ∷ []) fund table).1)
    × (IsSingle table → IsSingle (resolve_issues 300 ("SALES_LIMIT_SYNC_FAILED" ∷ []) fund table).1)
resolve_issues_lem_example = resolve_issues_lem 300 ("SALES_LIMIT_SYNC_FAILED" ∷ []) fund table

record_issue-resolve_issues_example :
    ((resolve_issues 300 ("SALES_LIMIT_SYNC_FAILED" ∷ []) fund table).0 ≡ 1)
    × (countb
          (is_match "SALES_LIMIT_SYNC_FAILED" fund)
          (resolve_issues 300 ("SALES_LIMIT_SYNC_FAILED" ∷ []) fund table).1
        ≡ 0)
record_issue-resolve_issues_example =
    record_issue-resolve_issues 1 100 300 failed_sync [] refl empty-IsSingle first_issue table
      recorded

-- A feeder fund (1) that holds 90 % of an ETF (2), which holds 5 % of the feeder.
abbrev graph : Nodes
graph =
    (1, record { direct = []; holdings = record { target = some 2; weight_pct = whole 90 } ∷ [] })
    ∷ (
      2,
      record {
        direct = ("US", whole 95) ∷ [];
        holdings = record { target = some 1; weight_pct = whole 5 } ∷ [];
      },
    )
    ∷ []

abbrev at_result {ℓ} : {A : Type ℓ} → A → (LookthroughResult → A) → Option LookthroughResult → A
at_result a f none = a
at_result a f (some r) = f r

-- Of the 90 %, 85.5 % are resolved and 4.5 % lie on the circle.
circle :
    (at_result 0 (λ r. r.max_depth) (weighted_lookthrough graph 1 5) ≡ 2)
    × (at_result false (λ r. r.circular_relation_detected) (weighted_lookthrough graph 1 5) ≡ true)
    × (at_result true (λ r. less r.coverage_pct (scaled 855 1)) (weighted_lookthrough graph 1 5)
        ≡ false)
    × (at_result true (λ r. less (scaled 855 1) r.coverage_pct) (weighted_lookthrough graph 1 5)
        ≡ false)
    × (at_result true
          (λ r. less r.unresolved_fund_weight_pct (scaled 45 1))
          (weighted_lookthrough graph 1 5)
        ≡ false)
    × (at_result true
          (λ r. less (scaled 45 1) r.unresolved_fund_weight_pct)
          (weighted_lookthrough graph 1 5)
        ≡ false)
unfolding weighted_lookthrough less
circle = (refl, refl, refl, refl, refl, refl)

weighted_lookthrough-IsBounded_example :
    (r : LookthroughResult) × (weighted_lookthrough graph 1 5 ≡ some r) × IsBounded 0 5 r
weighted_lookthrough-IsBounded_example = weighted_lookthrough-IsBounded graph 1 5

table-IsSingle : IsSingle table
table-IsSingle =
    (record_issue-IsSingle 1 100 failed_sync [] refl empty-IsSingle first_issue table recorded).0

record_issue-Holds_example :
    (issue : DataQualityIssue) × (rows : List DataQualityIssue) × (record_issue 2 200 again table
      ≡ some (issue, rows))
    × IsSingle rows
    × Holds again 200 issue rows
unfolding table
record_issue-Holds_example = record_issue-Holds 2 200 again table refl refl table-IsSingle

-- A database that draws an id above those of the table.
pub next_id : List DataQualityIssue → ℕ
next_id [] = 1
next_id (issue ∷ issues) = suc (issue.id + next_id issues)

above_all :
    (n : ℕ) (issues : List DataQualityIssue)
    → next_id issues ≤ n
    → countb (has_issue_id n) issues ≡ 0
unfolding next_id
above_all n [] h = refl
above_all n (issue ∷ issues) h = ground (arith, h, above_all n issues)

pub next_id-Fresh : Fresh next_id
next_id-Fresh issues = above_all (next_id issues) issues (omega arith)

pub no_issues-IsSingle : IsSingle []
no_issues-IsSingle = record { open_one = λ code context. omega arith; ids_one = λ id. omega arith }

record_or_resolve-Alarmed_example :
    (issues : List DataQualityIssue) × (record_or_resolve next_id 500 true failed_sync []
      ≡ some issues)
    × Alarmed true failed_sync [] issues
record_or_resolve-Alarmed_example =
    record_or_resolve-Alarmed next_id 500 failed_sync [] next_id-Fresh refl no_issues-IsSingle true
