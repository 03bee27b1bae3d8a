-- ===== src/Ingestion/Limits/Columns.antt =====
-- What the columns of the rows hold after `_store_snapshot` has written the records of a share.
use mathlib.Core.List.{Memᴰ}
use mathlib.Core.Path.{subst}
use qdii_observatory.Common.{
  ℕ, ◌≤◌, ◌≡◌, refl, sym, ap, ◌∙◌, String, Bool, true, false, not, inl, inr, List, [], ◌∷◌, arith,
  Bool-cases, Option-cases, is_some, filterb, first, countb, All,
}
use qdii_observatory.Common.Rows.{
  All-listed, All-mem, All-update_first, All-update_only, All-countb_zero, mem-filterb, countb_pos,
  countb-filterb, is_some-first,
}
use qdii_observatory.Ingestion.Limits.Schema.{
  PurchaseLimitRecord, PurchaseLimitSnapshot, DailyPurchaseLimit, record_identity, row_identity,
  same_identity,
}
use qdii_observatory.Ingestion.Limits.Store.{
  fill, new_limit, in_group, has_identity, is_row, write_record, write_records, is_current,
  delete_stale, store_group,
}
use qdii_observatory.Ingestion.Limits.Identities.{
  is_key, fill-mine, new_limit-mine, count-write_record, same_identity-eq, same_identity_refl,
}

-- A row has the columns of a record and of its snapshot.
pub record Carries (snapshot : PurchaseLimitSnapshot) (artifact_id : ℕ) (sha256 : String)
    (r : PurchaseLimitRecord) (row : DailyPurchaseLimit) : Type 0 where
  pub channel_name : row.channel_name ≡ r.channel_name
  pub availability_state : row.availability_state ≡ r.availability_state
  pub cap_state : row.cap_state ≡ r.cap_state
  pub daily_limit_amount : row.daily_limit_amount ≡ r.limit_amount
  pub currency : row.currency ≡ r.currency
  pub effective_from : row.effective_from ≡ r.effective_from
  pub effective_to : row.effective_to ≡ r.effective_to
  pub source_url : row.source_url ≡ snapshot.source_url
  pub source_published_at : row.source_published_at ≡ r.source_published_at
  pub fetched_at : row.fetched_at ≡ snapshot.observed_at
  pub source_artifact_id : row.source_artifact_id ≡ artifact_id
  pub raw_payload_hash : row.raw_payload_hash ≡ sha256
  pub raw_text : row.raw_text ≡ r.raw_text
  pub confidence : row.confidence ≡ r.confidence

module _ (snapshot : PurchaseLimitSnapshot) (artifact_id : ℕ) (sha256 : String) (share_id : ℕ)
    (r : PurchaseLimitRecord) where
  abbrev mine : DailyPurchaseLimit → Bool
  mine = is_row snapshot share_id (record_identity r)

  abbrev Shown : DailyPurchaseLimit → Type 0
  Shown row = mine row ≡ true → Carries snapshot artifact_id sha256 r row

  fill-Carries :
      (x : DailyPurchaseLimit)
      → Carries snapshot artifact_id sha256 r (fill snapshot artifact_id sha256 r x)
  unfolding fill
  fill-Carries x = record {
    channel_name = refl;
    availability_state = refl;
    cap_state = refl;
    daily_limit_amount = refl;
    currency = refl;
    effective_from = refl;
    effective_to = refl;
    source_url = refl;
    source_published_at = refl;
    fetched_at = refl;
    source_artifact_id = refl;
    raw_payload_hash = refl;
    raw_text = refl;
    confidence = refl;
  }

  new_limit-Carries :
      Carries snapshot artifact_id sha256 r (new_limit snapshot artifact_id sha256 share_id r)
  unfolding new_limit
  new_limit-Carries = record {
    channel_name = refl;
    availability_state = refl;
    cap_state = refl;
    daily_limit_amount = refl;
    currency = refl;
    effective_from = refl;
    effective_to = refl;
    source_url = refl;
    source_published_at = refl;
    fetched_at = refl;
    source_artifact_id = refl;
    raw_payload_hash = refl;
    raw_text = refl;
    confidence = refl;
  }

  module _ (existing : List DailyPurchaseLimit) where
    abbrev known : PurchaseLimitRecord → Bool
    known s = is_some (first (has_identity (record_identity s)) existing)

    abbrev written_by : PurchaseLimitRecord → List DailyPurchaseLimit → List DailyPurchaseLimit
    written_by s rows = write_record snapshot artifact_id sha256 share_id existing s rows

    -- Where the table has the identity at most once, and not at all unless it was read.
    record Ready (rows : List DailyPurchaseLimit) : Type 0 where
      once : countb mine rows ≤ 1
      absent : known r ≡ false → countb mine rows ≡ 0

    write_record-Shown :
        (rows : List DailyPurchaseLimit) → Ready rows → All Shown (written_by r rows)
    unfolding write_record
    write_record-Shown rows ready =
        elim (Option-cases (first (has_identity (record_identity r)) existing)) [
          | inl h ↦
              rw (h, write_record)
                (
                  (λ _. new_limit-Carries),
                  All-countb_zero (Carries snapshot artifact_id sha256 r) mine rows
                      (ready.absent (ap is_some h)),
                )
          | inr (row, h) ↦
              rw (h, write_record)
                (All-update_only Shown mine (fill snapshot artifact_id sha256 r) rows ready.once
                  (All-listed rows (λ x m k _. fill-Carries x))
                  (All-listed rows (λ x m h k. absurd (cc (h, k)))))
        ]

    other_row :
        (s : PurchaseLimitRecord) (x : DailyPurchaseLimit)
        → is_key (record_identity r) s ≡ false
        → is_row snapshot share_id (record_identity s) x ≡ true
        → mine x ≡ true
        → ⊥
    other_row s x other h k =
        let is_s = same_identity-eq (row_identity x) (record_identity s) (ground (arith, h)) in
        let is_r = same_identity-eq (row_identity x) (record_identity r) (ground (arith, k)) in
        let same : same_identity (record_identity s) (record_identity r) ≡ true =
          subst (λ i. same_identity (record_identity s) i ≡ true) (sym is_s ∙ is_r)
            (same_identity_refl (record_identity s)) in
        cc (same, other)

    write_other-Shown :
        (s : PurchaseLimitRecord) (rows : List DailyPurchaseLimit)
        → is_key (record_identity r) s ≡ false
        → All Shown rows
        → All Shown (written_by s rows)
    unfolding write_record
    write_other-Shown s rows other shown =
        elim (Option-cases (first (has_identity (record_identity s)) existing)) [
          | inl h ↦
              rw (h, write_record)
                (
                  (λ k. absurd (
                      cc (
                        new_limit-mine snapshot artifact_id sha256 share_id (record_identity r) s,
                        other,
                        k,
                      ))),
                  shown,
                )
          | inr (row, h) ↦
              rw (h, write_record)
                (All-update_first Shown (is_row snapshot share_id (record_identity s))
                  (fill snapshot artifact_id sha256 s) rows
                  (All-listed rows (λ x m is_s _ k. absurd (
                    other_row s x other is_s (
                      sym (fill-mine snapshot artifact_id sha256 share_id (record_identity r) s x)
                      ∙ k))))
                  shown)
        ]

    write_others-Shown :
        (rest : List PurchaseLimitRecord) (rows : List DailyPurchaseLimit)
        → countb (is_key (record_identity r)) rest ≡ 0
        → All Shown rows
        → All Shown (write_records snapshot artifact_id sha256 share_id existing rest rows)
    unfolding write_records
    write_others-Shown [] rows none_left shown = shown
    write_others-Shown (s ∷ rest) rows none_left shown =
        write_others-Shown rest (written_by s rows) (ground (arith, none_left))
          (write_other-Shown s rows (ground (arith, none_left)) shown)

    write_other-Ready :
        (s : PurchaseLimitRecord) (rows : List DailyPurchaseLimit)
        → is_key (record_identity r) s ≡ false
        → Ready rows
        → Ready (written_by s rows)
    write_other-Ready s rows other ready =
        let same : countb mine (written_by s rows) ≡ countb mine rows =
          count-write_record snapshot artifact_id sha256 share_id (record_identity r) existing s
            rows
          ∙ ground (arith, other) in
        record { once = omega (arith, same, ready.once); absent = λ h. same ∙ ready.absent h }

    write_records-Shown :
        (records : List PurchaseLimitRecord) (rows : List DailyPurchaseLimit)
        → Memᴰ r records
        → countb (is_key (record_identity r)) records ≤ 1
        → Ready rows
        → All Shown (write_records snapshot artifact_id sha256 share_id existing records rows)
    unfolding write_records
    write_records-Shown [] rows m once ready = elim m [ ]
    write_records-Shown (s ∷ rest) rows (Memᴰ.head e) once ready =
        let first_is : is_key (record_identity r) s ≡ true =
          rw (← e) (same_identity_refl (record_identity r)) in
        write_others-Shown rest (written_by s rows) (ground (arith, first_is, once))
          (subst (λ x. All Shown (written_by x rows)) e (write_record-Shown rows ready))
    write_records-Shown (s ∷ rest) rows (Memᴰ.tail m) once ready =
        let later =
          countb_pos (is_key (record_identity r)) rest m (same_identity_refl (record_identity r)) in
        let other : is_key (record_identity r) s ≡ false = ground (arith, later, once) in
        write_records-Shown rest (written_by s rows) m (ground (arith, once))
          (write_other-Ready s rows other ready)

  delete_stale-Shown :
      (records : List PurchaseLimitRecord) (es rows : List DailyPurchaseLimit)
      → All Shown rows
      → All Shown (delete_stale snapshot artifact_id sha256 share_id records es rows)
  unfolding delete_stale
  delete_stale-Shown records [] rows shown = shown
  delete_stale-Shown records (e ∷ es) rows shown = elim (Bool-cases (is_current records e)) [
    | inl h ↦ rw h (delete_stale-Shown records es rows shown)
    | inr h ↦ rw h (
        delete_stale-Shown records es _ (
          All-listed _ (λ x m.
            All-mem Shown rows shown
              (mem-filterb (λ x. not (is_row snapshot share_id (row_identity e) x)) rows m).0)))
  ]

  -- Where a share has an identity in at most one row and at most one record, the rows of the share
  -- that have it after `store_group` carry the columns of the record.
  pub store_group-Carries :
      (records : List PurchaseLimitRecord) (rows : List DailyPurchaseLimit)
      → Memᴰ r records
      → countb (is_key (record_identity r)) records ≤ 1
      → countb mine rows ≤ 1
      → All
          (Carries snapshot artifact_id sha256 r)
          (filterb mine (store_group snapshot artifact_id sha256 share_id records rows))
  unfolding store_group
  store_group-Carries records rows m one_record one_row =
      let existing = filterb (in_group snapshot share_id) rows in
      let ready : Ready existing rows = record {
        once = one_row;
        absent = λ h. ground (
          arith,
          h,
          is_some-first (has_identity (record_identity r)) existing,
          countb-filterb (has_identity (record_identity r)) (in_group snapshot share_id) rows,
        );
      } in
      let shown =
        delete_stale-Shown records existing _
          (write_records-Shown existing records rows m one_record ready) in
      All-listed _ (λ x n. let (listed, h) = mem-filterb mine _ n in All-mem Shown _ shown listed h)
