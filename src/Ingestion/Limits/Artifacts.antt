-- ===== src/Ingestion/Limits/Artifacts.antt =====
-- The artifact that `_store_snapshot` finds or adds for the archived content.
use mathlib.Core.Path.{subst}
use qdii_observatory.Common.{
  ℕ, ◌≤◌, ◌≡◌, refl, ap, String, true, ◌&&◌, inl, inr, Option, List, str_eq, eq_iff, arith,
  Bool-cases, Option-cases, is_some, first, countb,
}
use qdii_observatory.Common.Rows.{first-eq-some, is_some-first}
use qdii_observatory.Ingestion.Limits.Schema.{PurchaseLimitSnapshot, SourceArtifact}
use qdii_observatory.Ingestion.Limits.Store.{Archived, is_artifact, store_artifact}
use mathlib.Core.List.{Memᴰ}

pub store_artifact-listed :
    (id run_id contract_id : ℕ) (share_id : Option ℕ) (snapshot : PurchaseLimitSnapshot)
    (archived : Archived) (artifacts : List SourceArtifact)
    → Memᴰ
        (store_artifact id run_id contract_id share_id snapshot archived artifacts).0
        (store_artifact id run_id contract_id share_id snapshot archived artifacts).1
      × (is_artifact snapshot.provider_name archived.sha256
            (store_artifact id run_id contract_id share_id snapshot archived artifacts).0
          ≡ true)
unfolding store_artifact
store_artifact-listed id run_id contract_id share_id snapshot archived artifacts =
    elim (Option-cases (first (is_artifact snapshot.provider_name archived.sha256) artifacts)) [
      | inr (artifact, h) ↦
          rw (h, store_artifact)
            (first-eq-some (is_artifact snapshot.provider_name archived.sha256) artifacts artifact
              h)
      | inl h ↦
          rw (h, store_artifact)
            (
              Memᴰ.head refl,
              rw ((eq_iff snapshot.provider_name snapshot.provider_name).1 refl)
                  ((eq_iff archived.sha256 archived.sha256).1 refl),
            )
    ]

pub store_artifact-once :
    (id run_id contract_id : ℕ) (share_id : Option ℕ) (snapshot : PurchaseLimitSnapshot)
    (archived : Archived) (artifacts : List SourceArtifact)
    → ((provider sha256 : String) → countb (is_artifact provider sha256) artifacts ≤ 1)
    → (countb
          (is_artifact snapshot.provider_name archived.sha256)
          (store_artifact id run_id contract_id share_id snapshot archived artifacts).1
        ≡ 1)
      × ((provider sha256 : String)
          → countb
              (is_artifact provider sha256)
              (store_artifact id run_id contract_id share_id snapshot archived artifacts).1
            ≤ 1)
unfolding store_artifact
store_artifact-once id run_id contract_id share_id snapshot archived artifacts unique =
    elim (Option-cases (first (is_artifact snapshot.provider_name archived.sha256) artifacts)) [
      | inr (artifact, h) ↦
          rw (h, store_artifact)
            (
              ground (
                arith,
                is_some-first (is_artifact snapshot.provider_name archived.sha256) artifacts,
                ap is_some h,
                unique snapshot.provider_name archived.sha256,
              ),
              unique,
            )
      | inl h ↦
          let none_yet : countb (is_artifact snapshot.provider_name archived.sha256) artifacts ≡ 0 =
            ground (
              arith,
              is_some-first (is_artifact snapshot.provider_name archived.sha256) artifacts,
              ap is_some h,
            ) in
          rw (h, store_artifact)
            (
              rw
                  (
                    (eq_iff snapshot.provider_name snapshot.provider_name).1 refl,
                    (eq_iff archived.sha256 archived.sha256).1 refl,
                  )
                  (omega (arith, none_yet)),
              (λ provider sha256.
                  elim (Bool-cases
                    (str_eq snapshot.provider_name provider && str_eq archived.sha256 sha256)) [
                      | inl e ↦
                          let p = (eq_iff snapshot.provider_name provider).0 (ground (arith, e)) in
                          let s = (eq_iff archived.sha256 sha256).0 (ground (arith, e)) in
                          let gone : countb (is_artifact provider sha256) artifacts ≡ 0 =
                            subst (λ q. countb (is_artifact q sha256) artifacts ≡ 0) p
                              (subst
                                (λ t. countb (is_artifact snapshot.provider_name t) artifacts ≡ 0) s
                                none_yet) in
                          rw e (omega (arith, gone))
                      | inr e ↦ rw e (omega (arith, unique provider sha256))
                    ]),
            )
    ]
