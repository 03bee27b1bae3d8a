-- ===== src/Ingestion/Limits/Identities.antt =====
-- What the rows of one share hold after its part of a snapshot is stored.
use mathlib.Core.Path.{subst}
use qdii_observatory.Common.{
  ℕ, ◌+◌, ◌≤◌, ◌≡◌, refl, sym, ap, ◌∙◌, String, Bool, true, not, ◌&&◌, inl, inr, List, [], ◌∷◌,
  ==_iff, eq_iff, arith, ltb, Bool-cases, Option-cases, if◌then◌else◌, is_some, filterb, first,
  countb, anyb,
}
use qdii_observatory.Common.Rows.{
  countb-filterb, countb-update_first_same, countb-filterb_none, countb-filterb_all, is_some-first,
  anyb-ltb, countb_congr,
}
use qdii_observatory.Ingestion.Limits.Schema.{
  PurchaseLimitRecord, PurchaseLimitSnapshot, DailyPurchaseLimit, Identity, record_identity,
  row_identity, same_identity,
}
use qdii_observatory.Ingestion.Limits.Store.{
  fill, new_limit, in_group, has_identity, is_row, write_record, write_records, is_current,
  delete_stale, store_group,
}

pub same_identity_refl : (a : Identity) → same_identity a a ≡ true
unfolding same_identity
same_identity_refl a =
    rw
      (
        (eq_iff a.channel_type a.channel_type).1 refl,
        (eq_iff a.channel_key a.channel_key).1 refl,
        (eq_iff a.business_type a.business_type).1 refl,
        (eq_iff a.limit_basis a.limit_basis).1 refl,
      )
      ((eq_iff a.limit_scope a.limit_scope).1 refl)

pub same_identity-eq : (a b : Identity) → same_identity a b ≡ true → a ≡ b
unfolding same_identity
same_identity-eq a b h =
    let ct = (eq_iff a.channel_type b.channel_type).0 (ground (arith, h)) in
    let ck = (eq_iff a.channel_key b.channel_key).0 (ground (arith, h)) in
    let bt = (eq_iff a.business_type b.business_type).0 (ground (arith, h)) in
    let lb = (eq_iff a.limit_basis b.limit_basis).0 (ground (arith, h)) in
    let ls = (eq_iff a.limit_scope b.limit_scope).0 (ground (arith, h)) in
    λ i. record {
      channel_type = ct i;
      channel_key = ck i;
      business_type = bt i;
      limit_basis = lb i;
      limit_scope = ls i;
    }

pub same_identity_comm : (a b : Identity) → same_identity a b ≡ true → same_identity b a ≡ true
same_identity_comm a b h = rw (same_identity-eq a b h) (same_identity_refl b)

-- The records with an identity.
abbrev pub is_key : Identity → PurchaseLimitRecord → Bool
is_key key r = same_identity (record_identity r) key

module _ (snapshot : PurchaseLimitSnapshot) (artifact_id : ℕ) (sha256 : String) (share_id : ℕ)
    (key : Identity) where
  abbrev mine : DailyPurchaseLimit → Bool
  mine = is_row snapshot share_id key

  pub fill-mine :
      (r : PurchaseLimitRecord) (x : DailyPurchaseLimit)
      → mine (fill snapshot artifact_id sha256 r x) ≡ mine x
  unfolding fill
  fill-mine r x = refl

  pub new_limit-mine :
      (r : PurchaseLimitRecord)
      → mine (new_limit snapshot artifact_id sha256 share_id r)
        ≡ same_identity (record_identity r) key
  unfolding new_limit
  new_limit-mine r =
      rw
        (
          (==_iff share_id share_id).1 refl,
          (==_iff snapshot.snapshot_date snapshot.snapshot_date).1 refl,
          (eq_iff snapshot.provider_name snapshot.provider_name).1 refl,
        )
        refl

  module _ (existing : List DailyPurchaseLimit) where
    abbrev known : PurchaseLimitRecord → Bool
    known r = is_some (first (has_identity (record_identity r)) existing)

    pub count-write_record :
        (r : PurchaseLimitRecord) (rows : List DailyPurchaseLimit)
        → countb mine (write_record snapshot artifact_id sha256 share_id existing r rows)
          ≡ countb mine rows + (if not (known r) && is_key key r then 1 else 0)
    unfolding write_record
    count-write_record r rows =
        elim (Option-cases (first (has_identity (record_identity r)) existing)) [
          | inl h ↦ rw (h, write_record) (rw (new_limit-mine r) (omega arith))
          | inr (row, h) ↦
              rw (h, write_record)
                (countb-update_first_same mine (is_row snapshot share_id (record_identity r))
                    (fill snapshot artifact_id sha256 r) rows (fill-mine r)
                  ∙ omega arith)
        ]

    count-write_records :
        (records : List PurchaseLimitRecord) (rows : List DailyPurchaseLimit)
        → countb mine (write_records snapshot artifact_id sha256 share_id existing records rows)
          ≡ countb mine rows + countb (λ r. not (known r) && is_key key r) records
    unfolding write_records
    count-write_records [] rows = omega arith
    count-write_records (r ∷ rest) rows =
        count-write_records rest (write_record snapshot artifact_id sha256 share_id existing r rows)
        ∙ omega (arith, count-write_record r rows)

same_identity_sym : (a b : Identity) → same_identity a b ≡ same_identity b a
same_identity_sym a b = ground (arith, same_identity_comm a b, same_identity_comm b a)

-- How many rows of the share carry an identity, how many records bring it, and whether one of the
-- records of a list of rows does.
module _ (snapshot : PurchaseLimitSnapshot) (share_id : ℕ) (records : List PurchaseLimitRecord)
    (key : Identity) where
  abbrev stale : DailyPurchaseLimit → Bool
  stale e = not (is_current records e) && has_identity key e

  delete_one :
      (e : DailyPurchaseLimit) (rows : List DailyPurchaseLimit)
      → countb
          (is_row snapshot share_id key)
          (filterb (λ x. not (is_row snapshot share_id (row_identity e) x)) rows)
        ≡ (if has_identity key e then 0 else countb (is_row snapshot share_id key) rows)
  delete_one e rows = elim (Bool-cases (has_identity key e)) [
    | inl h ↦
        let same = same_identity-eq (row_identity e) key h in
        rw h (
          countb-filterb_none (is_row snapshot share_id key)
            (is_row snapshot share_id (row_identity e)) rows
            (λ x k. subst (λ i. is_row snapshot share_id i x ≡ true) (sym same) k))
    | inr h ↦ rw h (
        countb-filterb_all (is_row snapshot share_id key)
          (is_row snapshot share_id (row_identity e)) rows
          (λ x k. elim (Bool-cases (has_identity (row_identity e) x)) [
            | inl m ↦
                let via = same_identity_comm (row_identity x) (row_identity e) m in
                let at_x : same_identity (row_identity x) key ≡ true = ground (arith, k) in
                absurd (
                  cc (
                    subst (λ i. same_identity i key ≡ true)
                        (sym (same_identity-eq (row_identity e) (row_identity x) via)) at_x,
                    h,
                  ))
            | inr m ↦ ground (arith, m)
          ]))
  ]

  count-delete_stale :
      (artifact_id : ℕ) (sha256 : String) (es rows : List DailyPurchaseLimit)
      → countb
          (is_row snapshot share_id key)
          (delete_stale snapshot artifact_id sha256 share_id records es rows)
        ≡ (if anyb stale es then 0 else countb (is_row snapshot share_id key) rows)
  unfolding delete_stale
  count-delete_stale artifact_id sha256 [] rows = refl
  count-delete_stale artifact_id sha256 (e ∷ es) rows = elim (Bool-cases (is_current records e)) [
    | inl h ↦ rw h (count-delete_stale artifact_id sha256 es rows)
    | inr h ↦ rw h (
        count-delete_stale artifact_id sha256 es
          (filterb (λ x. not (is_row snapshot share_id (row_identity e) x)) rows)
        ∙ ground (arith, delete_one e rows))
  ]

  -- A read row with the identity is stale unless a record brings the identity.
  is_current-key :
      (e : DailyPurchaseLimit)
      → has_identity key e ≡ true
      → is_current records e ≡ ltb 0 (countb (is_key key) records)
  is_current-key e h =
      let same = same_identity-eq (row_identity e) key h in
      anyb-ltb (λ r. has_identity (record_identity r) e) records
      ∙ ap (λ n. ltb 0 n)
          (countb_congr (λ r. has_identity (record_identity r) e) (is_key key) records
            (λ r.
              ap (λ i. same_identity i (record_identity r)) same
              ∙ same_identity_sym key (record_identity r)))

  anyb-stale :
      (es : List DailyPurchaseLimit)
      → anyb stale es
        ≡ (not (ltb 0 (countb (is_key key) records)) && ltb 0 (countb (has_identity key) es))
  anyb-stale [] = ground arith
  anyb-stale (e ∷ es) = ground (arith, is_current-key e, anyb-stale es)

  -- A record with the identity is known if a read row has the identity.
  count-unknown :
      (existing : List DailyPurchaseLimit) (rs : List PurchaseLimitRecord)
      → countb
          (λ r. not (is_some (first (has_identity (record_identity r)) existing)) && is_key key r)
          rs
        ≡ (if ltb 0 (countb (has_identity key) existing) then 0 else countb (is_key key) rs)
  count-unknown existing [] = ground arith
  count-unknown existing (r ∷ rs) = elim (Bool-cases (is_key key r)) [
    | inl h ↦
        let same = same_identity-eq (record_identity r) key h in
        let found : is_some (first (has_identity (record_identity r)) existing)
            ≡ ltb 0 (countb (has_identity key) existing) =
          is_some-first (has_identity (record_identity r)) existing
          ∙ ap (λ i. ltb 0 (countb (has_identity i) existing)) same in
        ground (arith, found, count-unknown existing rs)
    | inr h ↦ ground (arith, h, count-unknown existing rs)
  ]

  -- Where at most one row of the share has an identity, and at most one record brings it: after
  -- `store_group`, as many rows of the share have it as records do, so the rows of the share carry
  -- exactly the identities of the records, each once.
  pub store_group-counts :
      (artifact_id : ℕ) (sha256 : String) (rows : List DailyPurchaseLimit)
      → countb (is_row snapshot share_id key) rows ≤ 1
      → countb (is_key key) records ≤ 1
      → countb
          (is_row snapshot share_id key)
          (store_group snapshot artifact_id sha256 share_id records rows)
        ≡ countb (is_key key) records
  unfolding store_group
  store_group-counts artifact_id sha256 rows one_row one_record =
      let existing = filterb (in_group snapshot share_id) rows in
      count-delete_stale artifact_id sha256 existing
        (write_records snapshot artifact_id sha256 share_id existing records rows)
      ∙ ground (
        arith,
        anyb-stale existing,
        count-write_records snapshot artifact_id sha256 share_id key existing records rows,
        count-unknown existing records,
        countb-filterb (has_identity key) (in_group snapshot share_id) rows,
        one_row,
        one_record,
      )
