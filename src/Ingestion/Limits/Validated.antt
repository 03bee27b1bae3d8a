-- ===== src/Ingestion/Limits/Validated.antt =====
-- `_validate_records`: what it accepts has each identity of a share once.
use mathlib.Core.Path.{subst}
use qdii_observatory.Common.{
  ℕ, ◌+◌, ◌≤◌, ◌≡◌, refl, sym, ap, ◌∙◌, String, Bool, true, false, not, ◌&&◌, inl, inr, none, some,
  List, [], ◌∷◌, ◌==◌, ==_iff, eq_iff, arith, Bool-cases, Option-cases, if◌then◌else◌, is_some,
  countb, anyb,
}
use qdii_observatory.Common.Outcomes.{done, require-inv}
use qdii_observatory.Ingestion.Limits.Schema.{
  PurchaseLimitRecord, Identity, record_identity, same_identity,
}
use qdii_observatory.Ingestion.Limits.Store.{
  SharesByCode, share_id_of, is_seen, validate_from, validate_records, unexpected_code,
  duplicate_key, is_for,
}
use qdii_observatory.Ingestion.Limits.Identities.{is_key, same_identity-eq, same_identity_refl}

-- One share has one code: `share_code` is unique in the table of shares.
abbrev pub OneCode : SharesByCode → Type 0
OneCode shares =
    (c d : String) (id : ℕ)
    → share_id_of shares c ≡ some id
    → share_id_of shares d ≡ some id
    → c ≡ d

module _ (shares : SharesByCode) (one_code : OneCode shares) (share_id : ℕ) (key : Identity) where
  -- The records, and the identities seen, for this share and this identity.
  abbrev mine : PurchaseLimitRecord → Bool
  mine r = is_for shares share_id r && is_key key r

  abbrev seen_mine : String × Identity → Bool
  seen_mine (code, identity) =
      elim (share_id_of shares code) [ none ↦ false | some i ↦ i == share_id ]
      && same_identity identity key

  is_for-share :
      (code : String)
      → elim (share_id_of shares code) [ none ↦ false | some i ↦ i == share_id ] ≡ true
      → share_id_of shares code ≡ some share_id
  is_for-share code h = elim (Option-cases (share_id_of shares code)) [
    | inl e ↦ absurd (cc (rw e at h))
    | inr (i, e) ↦ e ∙ ap some ((==_iff i share_id).0 (rw e at h))
  ]

  -- A record that was seen before would be refused.
  seen-refused :
      (r : PurchaseLimitRecord) (seen : List (String × Identity))
      → mine r ≡ true
      → anyb seen_mine seen ≡ true
      → is_seen seen r.share_code (record_identity r) ≡ true
  seen-refused r [] m h = absurd (cc h)
  seen-refused r ((code, identity) ∷ seen) m h = elim (Bool-cases (seen_mine (code, identity))) [
    | inl e ↦
        let same_share : code ≡ r.share_code =
          one_code code r.share_code share_id (is_for-share code (ground (arith, e)))
            (is_for-share r.share_code (ground (arith, m))) in
        let left = same_identity-eq identity key (ground (arith, e)) in
        let right = same_identity-eq (record_identity r) key (ground (arith, m)) in
        let at_key : same_identity identity (record_identity r) ≡ true =
          subst (λ i. same_identity i (record_identity r) ≡ true) (right ∙ sym left)
            (same_identity_refl (record_identity r)) in
        rw ((eq_iff code r.share_code).1 same_share, at_key) refl
    | inr e ↦ ground (arith, seen-refused r seen m (ground (arith, h, e)))
  ]

  validate_from-once :
      (seen : List (String × Identity)) (records : List PurchaseLimitRecord)
      → validate_from shares seen records ≡ done tt
      → (if anyb seen_mine seen then 1 else 0) + countb mine records ≤ 1
  unfolding validate_from
  validate_from-once seen [] e = ground arith
  validate_from-once seen (r ∷ rest) e =
      let (known, e1) =
        require-inv (is_some (share_id_of shares r.share_code)) (unexpected_code r.share_code) _
          e in
      let (fresh, e2) =
        require-inv (not (is_seen seen r.share_code (record_identity r)))
          (duplicate_key r.share_code (record_identity r)) _ e1 in
      let ih = validate_from-once ((r.share_code, record_identity r) ∷ seen) rest e2 in
      ground (arith, ih, fresh, seen-refused r seen)

  pub validate_records-once :
      (records : List PurchaseLimitRecord)
      → validate_records shares records ≡ done tt
      → countb mine records ≤ 1
  unfolding validate_records
  validate_records-once records e = omega (arith, validate_from-once [] records e)
