-- ===== src/Ingestion/Limits/Shares.antt =====
-- The loop of `_store_snapshot` over the shares of a snapshot.
use mathlib.Core.List.{Memᴰ}
use mathlib.Core.Path.{subst}
use qdii_observatory.Common.{
  ==_iff, All, ℕ, ◌≤◌, ◌≡◌, refl, sym, ap, ◌∙◌, String, Bool, true, false, inl, inr, List, [], ◌∷◌,
  ◌==◌, arith, ltb, Bool-cases, Option-cases, if◌then◌else◌, filterb, countb, memb, length,
}
use qdii_observatory.Common.Rows.{length-filterb, anyb-ltb}
use qdii_observatory.Ingestion.Limits.Schema.{
  PurchaseLimitRecord, PurchaseLimitSnapshot, DailyPurchaseLimit, Identity, record_identity,
}
use qdii_observatory.Ingestion.Limits.Store.{
  share_id_of, SharesByCode, in_group, is_row, store_group, is_for, share_ids, store_groups,
}
use qdii_observatory.Ingestion.Limits.Identities.{is_key, store_group-counts}
use qdii_observatory.Ingestion.Limits.Groups.{store_group-others}
use qdii_observatory.Ingestion.Limits.Columns.{Carries, store_group-Carries}

anyb-countb : (n : ℕ) (ns : List ℕ) → memb n ns ≡ ltb 0 (countb (λ m. m == n) ns)
anyb-countb n ns = anyb-ltb (λ m. m == n) ns

module _ (shares : SharesByCode) (snapshot : PurchaseLimitSnapshot) (artifact_id : ℕ)
    (sha256 : String) where
  abbrev pub records_of : ℕ → List PurchaseLimitRecord
  records_of id = filterb (is_for shares id) snapshot.records

  -- A share that is not stored keeps its rows.
  pub store_groups-others :
      (q : DailyPurchaseLimit → Bool) (ids : List ℕ) (rows : List DailyPurchaseLimit)
      → ((id : ℕ)
          → memb id ids ≡ true
          → (x : DailyPurchaseLimit) → in_group snapshot id x ≡ true
          → q x ≡ false)
      → filterb q (store_groups shares snapshot artifact_id sha256 ids rows) ≡ filterb q rows
  unfolding store_groups
  store_groups-others q [] rows apart = refl
  store_groups-others q (id ∷ ids) rows apart =
      store_groups-others q ids _ (λ i m. apart i (ground (arith, m)))
      ∙ store_group-others snapshot artifact_id sha256 id q (apart id (ground arith))
          (records_of id) rows

  group_apart :
      (share_id id : ℕ) (x : DailyPurchaseLimit)
      → (id == share_id) ≡ false
      → in_group snapshot id x ≡ true
      → in_group snapshot share_id x ≡ false
  group_apart share_id id x h k = ground (arith, h, k)

  module _ (share_id : ℕ) (key : Identity)
      (once : countb (is_key key) (records_of share_id) ≤ 1) where
    abbrev rows_with : List DailyPurchaseLimit → ℕ
    rows_with rows = countb (is_row snapshot share_id key) rows

    store_group-elsewhere :
        (id : ℕ) (rows : List DailyPurchaseLimit)
        → (id == share_id) ≡ false
        → rows_with (store_group snapshot artifact_id sha256 id (records_of id) rows)
          ≡ rows_with rows
    store_group-elsewhere id rows h =
        let after = store_group snapshot artifact_id sha256 id (records_of id) rows in
        sym (length-filterb (is_row snapshot share_id key) after)
        ∙ ap (λ xs. length xs)
            (store_group-others snapshot artifact_id sha256 id (is_row snapshot share_id key)
              (λ x k. ground (arith, group_apart share_id id x h k)) (records_of id) rows)
        ∙ length-filterb (is_row snapshot share_id key) rows

    pub count-store_groups :
        (ids : List ℕ) (rows : List DailyPurchaseLimit)
        → countb (λ m. m == share_id) ids ≤ 1
        → rows_with rows ≤ 1
        → rows_with (store_groups shares snapshot artifact_id sha256 ids rows) ≡ (
            if memb share_id ids then countb (is_key key) (records_of share_id) else rows_with rows)
    unfolding store_groups
    count-store_groups [] rows distinct_ids one_row = refl
    count-store_groups (id ∷ ids) rows distinct_ids one_row = elim (Bool-cases (id == share_id)) [
      | inl e ↦
          let at_id : id ≡ share_id = ground arith in
          let here : rows_with (store_group snapshot artifact_id sha256 id (records_of id) rows)
              ≡ countb (is_key key) (records_of share_id) =
            subst
              (λ i.
                rows_with (store_group snapshot artifact_id sha256 i (records_of i) rows)
                ≡ countb (is_key key) (records_of share_id))
              (sym at_id)
              (store_group-counts snapshot share_id (records_of share_id) key artifact_id sha256
                rows one_row once) in
          count-store_groups ids _ (omega (arith, distinct_ids)) (omega (arith, here, once))
          ∙ ground (arith, here, anyb-countb share_id ids, distinct_ids)
      | inr e ↦
          let here = store_group-elsewhere id rows e in
          count-store_groups ids _ (ground (arith, distinct_ids)) (omega (arith, here, one_row))
          ∙ ground (arith, here)
    ]

  -- The rows of a record of a share in the list carry its columns.
  module _ (share_id : ℕ) (r : PurchaseLimitRecord)
      (once : countb (is_key (record_identity r)) (records_of share_id) ≤ 1)
      (listed : Memᴰ r (records_of share_id)) where
    abbrev its_row : DailyPurchaseLimit → Bool
    its_row = is_row snapshot share_id (record_identity r)

    pub store_groups-Carries :
        (ids : List ℕ) (rows : List DailyPurchaseLimit)
        → countb (λ m. m == share_id) ids ≤ 1
        → memb share_id ids ≡ true
        → countb its_row rows ≤ 1
        → All
            (Carries snapshot artifact_id sha256 r)
            (filterb its_row (store_groups shares snapshot artifact_id sha256 ids rows))
    unfolding store_groups
    store_groups-Carries [] rows distinct_ids member one_row = absurd (cc member)
    store_groups-Carries (id ∷ ids) rows distinct_ids member one_row =
        elim (Bool-cases (id == share_id)) [
          | inl e ↦
              let at_id : id ≡ share_id = ground arith in
              let here : All (Carries snapshot artifact_id sha256 r) (
                  filterb its_row
                    (store_group snapshot artifact_id sha256 id (records_of id) rows)) =
                subst
                  (λ i. All (Carries snapshot artifact_id sha256 r) (
                    filterb its_row
                      (store_group snapshot artifact_id sha256 i (records_of i) rows)))
                  (sym at_id)
                  (store_group-Carries snapshot artifact_id sha256 share_id r (records_of share_id)
                    rows listed once one_row) in
              subst (All (Carries snapshot artifact_id sha256 r))
                (sym (
                  store_groups-others its_row ids _ (λ i m x k. ground (
                    arith,
                    k,
                    group_apart share_id i x (away i m (ground (arith, e, distinct_ids))),
                  ))))
                here
          | inr e ↦
              let same = store_group-elsewhere share_id (record_identity r) once id rows e in
              store_groups-Carries ids _ (ground (arith, distinct_ids)) (ground (arith, member, e))
                (omega (arith, same, one_row))
        ]
      where
        away :
            (i : ℕ)
            → memb i ids ≡ true
            → countb (λ m. m == share_id) ids ≡ 0
            → (i == share_id) ≡ false
        away i m gone = elim (Bool-cases (i == share_id)) [
          | inr h ↦ h
          | inl h ↦
              let same : i ≡ share_id = (==_iff i share_id).0 h in
              let inside : memb share_id ids ≡ true = rw same at m in
              absurd (ground (arith, anyb-countb share_id ids, gone, inside))
        ]

-- The shares of the records.
pub share_ids-listed :
    (shares : SharesByCode) (share_id : ℕ) (records : List PurchaseLimitRecord)
    (r : PurchaseLimitRecord)
    → Memᴰ r records
    → is_for shares share_id r ≡ true
    → memb share_id (share_ids shares records) ≡ true
unfolding share_ids
share_ids-listed shares share_id [] r m h = elim m [ ]
share_ids-listed shares share_id (x ∷ rest) r (Memᴰ.head e) h =
    let here : is_for shares share_id x ≡ true = subst (λ y. is_for shares share_id y ≡ true) e h in
    elim (Option-cases (share_id_of shares x.share_code)) [
      | inl k ↦ absurd (cc (rw (k, is_for) at here))
      | inr (i, k) ↦ rw (k, share_ids) (ground (arith, rw (k, is_for) at here))
    ]
share_ids-listed shares share_id (x ∷ rest) r (Memᴰ.tail m) h =
    let later = share_ids-listed shares share_id rest r m h in
    elim (Option-cases (share_id_of shares x.share_code)) [
      | inl k ↦ rw (k, share_ids) later
      | inr (i, k) ↦ rw (k, share_ids) (ground (arith, later))
    ]
