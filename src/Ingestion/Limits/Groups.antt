-- ===== src/Ingestion/Limits/Groups.antt =====
-- What `_store_snapshot` does to the whole table: the shares of the snapshot, and the other rows.

use qdii_observatory.Common.{
  ℕ, ◌≡◌, refl, ◌∙◌, String, Bool, true, false, inl, inr, List, [], ◌∷◌, ==_iff, eq_iff, arith,
  Bool-cases, Option-cases, filterb, first,
}
use qdii_observatory.Common.Rows.{filterb-update_first_out, filterb-filterb_out}
use qdii_observatory.Ingestion.Limits.Schema.{
  PurchaseLimitRecord, PurchaseLimitSnapshot, DailyPurchaseLimit, Identity, record_identity,
  row_identity,
}
use qdii_observatory.Ingestion.Limits.Store.{
  fill, new_limit, in_group, has_identity, is_row, write_record, write_records, is_current,
  delete_stale, store_group,
}

-- A selection that has none of the rows of a share keeps its rows.
module _ (snapshot : PurchaseLimitSnapshot) (artifact_id : ℕ) (sha256 : String) (share_id : ℕ)
    (q : DailyPurchaseLimit → Bool)
    (apart : (x : DailyPurchaseLimit) → in_group snapshot share_id x ≡ true → q x ≡ false) where
  is_row-in_group :
      (key : Identity) (x : DailyPurchaseLimit)
      → is_row snapshot share_id key x ≡ true
      → in_group snapshot share_id x ≡ true
  is_row-in_group key x h = ground (arith, h)

  fill-in_group :
      (r : PurchaseLimitRecord) (x : DailyPurchaseLimit)
      → in_group snapshot share_id (fill snapshot artifact_id sha256 r x)
        ≡ in_group snapshot share_id x
  unfolding fill
  fill-in_group r x = refl

  new_limit-in_group :
      (r : PurchaseLimitRecord)
      → in_group snapshot share_id (new_limit snapshot artifact_id sha256 share_id r) ≡ true
  unfolding new_limit
  new_limit-in_group r =
      rw
        (
          (==_iff share_id share_id).1 refl,
          (==_iff snapshot.snapshot_date snapshot.snapshot_date).1 refl,
        )
        ((eq_iff snapshot.provider_name snapshot.provider_name).1 refl)

  write_records-others :
      (existing : List DailyPurchaseLimit) (records : List PurchaseLimitRecord)
      (rows : List DailyPurchaseLimit)
      → filterb q (write_records snapshot artifact_id sha256 share_id existing records rows)
        ≡ filterb q rows
  unfolding write_records
  write_records-others existing [] rows = refl
  write_records-others existing (r ∷ rest) rows =
      write_records-others existing rest
        (write_record snapshot artifact_id sha256 share_id existing r rows)
      ∙ one
    where
      one :
          filterb q (write_record snapshot artifact_id sha256 share_id existing r rows)
          ≡ filterb q rows
      one =
          unfold write_record in
          elim (Option-cases (first (has_identity (record_identity r)) existing)) [
            | inl h ↦
                rw (h, write_record)
                  (rw
                    (apart (new_limit snapshot artifact_id sha256 share_id r)
                      (new_limit-in_group r))
                    refl)
            | inr (row, h) ↦
                rw (h, write_record)
                  (filterb-update_first_out q (is_row snapshot share_id (record_identity r))
                    (fill snapshot artifact_id sha256 r) rows
                    (λ x k. apart x (is_row-in_group (record_identity r) x k))
                    (λ x k. apart _ (fill-in_group r x ∙ is_row-in_group (record_identity r) x k)))
          ]

  delete_stale-others :
      (records : List PurchaseLimitRecord) (es rows : List DailyPurchaseLimit)
      → filterb q (delete_stale snapshot artifact_id sha256 share_id records es rows)
        ≡ filterb q rows
  unfolding delete_stale
  delete_stale-others records [] rows = refl
  delete_stale-others records (e ∷ es) rows = elim (Bool-cases (is_current records e)) [
    | inl h ↦ rw h (delete_stale-others records es rows)
    | inr h ↦ rw h (
        delete_stale-others records es _
        ∙ filterb-filterb_out q (is_row snapshot share_id (row_identity e)) rows
            (λ x k. apart x (is_row-in_group (row_identity e) x k)))
  ]

  pub store_group-others :
      (records : List PurchaseLimitRecord) (rows : List DailyPurchaseLimit)
      → filterb q (store_group snapshot artifact_id sha256 share_id records rows) ≡ filterb q rows
  unfolding store_group
  store_group-others records rows =
      delete_stale-others records (filterb (in_group snapshot share_id) rows) _
      ∙ write_records-others (filterb (in_group snapshot share_id) rows) records rows
