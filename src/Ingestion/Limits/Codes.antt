-- ===== src/Ingestion/Limits/Codes.antt =====
-- Share codes and ids of a list of shares (ingestion/limit_pipeline.py, `shares_by_code`).
use qdii_observatory.Common.{
  ℕ, ◌≡◌, refl, sym, ap, ◌∙◌, String, Bool, true, false, ◌||◌, inl, inr, some, List, [], ◌∷◌, ◌++◌,
  ◌==◌, str_eq, eq_iff, arith, Bool-cases, if◌then◌else◌, anyb,
}
use qdii_observatory.Ingestion.Limits.Store.{share_id_of}
use qdii_observatory.Ingestion.Limits.Validated.{OneCode}
use qdii_observatory.Ingestion.Limits.Audit.{FundShare}
use qdii_observatory.Ingestion.Limits.Sync.{codes_of}
use qdii_observatory.Ingestion.Limits.Rounds.{IsDistinct}

anyb-append {ℓ} :
    {A : Type ℓ} (p : A → Bool) (xs ys : List A) → anyb p (xs ++ ys) ≡ (anyb p xs || anyb p ys)
anyb-append p [] ys = refl
anyb-append p (x ∷ xs) ys = ground (arith, anyb-append p xs ys)

module _ (share : FundShare) (shares : List FundShare) (code : String) where
  share_id_of_here :
      str_eq share.share_code code ≡ true
      → share_id_of (codes_of (share ∷ shares)) code ≡ some share.id
  unfolding share_id_of
  share_id_of_here h = ap (λ b. if b then some share.id else share_id_of (codes_of shares) code) h

  share_id_of_there :
      str_eq share.share_code code ≡ false
      → share_id_of (codes_of (share ∷ shares)) code ≡ share_id_of (codes_of shares) code
  unfolding share_id_of
  share_id_of_there h = ap (λ b. if b then some share.id else share_id_of (codes_of shares) code) h

  id_of_here :
      (id : ℕ)
      → str_eq share.share_code code ≡ true
      → share_id_of (codes_of (share ∷ shares)) code ≡ some id
      → share.id ≡ id
  id_of_here id h k = let same : some share.id ≡ some id = sym (share_id_of_here h) ∙ k in cc same

share_id_of-anyb :
    (shares : List FundShare) (code : String) (id : ℕ)
    → share_id_of (codes_of shares) code ≡ some id
    → anyb (λ (s : FundShare). s.id == id) shares ≡ true
unfolding share_id_of
share_id_of-anyb [] code id h = absurd (cc h)
share_id_of-anyb (s ∷ ss) code id h = elim (Bool-cases (str_eq s.share_code code)) [
  | inl e ↦ ground (arith, id_of_here s ss code id e h)
  | inr e ↦ ground (arith, share_id_of-anyb ss code id (sym (share_id_of_there s ss code e) ∙ h))
]

-- The first share of a list has a code and an id of its own.
head_apart :
    (s : FundShare) (ss : List FundShare) (c d : String) (id : ℕ)
    → anyb (λ (t : FundShare). t.id == s.id) ss ≡ false
    → str_eq s.share_code c ≡ true
    → str_eq s.share_code d ≡ false
    → share_id_of (codes_of (s ∷ ss)) c ≡ some id
    → share_id_of (codes_of (s ∷ ss)) d ≡ some id
    → ⊥
head_apart s ss c d id once e e' h k =
    let same : s.id ≡ id = id_of_here s ss c id e h in
    cc (
      once,
      share_id_of-anyb ss d s.id (sym (share_id_of_there s ss d e') ∙ k ∙ ap some (sym same)),
    )

pub codes_of-OneCode : (shares : List FundShare) → IsDistinct shares → OneCode (codes_of shares)
unfolding share_id_of
codes_of-OneCode [] distinct c d id h k = absurd (cc h)
codes_of-OneCode (s ∷ ss) (once, distinct) c d id h k = elim (Bool-cases (str_eq s.share_code c)) [
  | inl e ↦ elim (Bool-cases (str_eq s.share_code d)) [
    | inl e' ↦ sym ((eq_iff s.share_code c).0 e) ∙ (eq_iff s.share_code d).0 e'
    | inr e' ↦ absurd (head_apart s ss c d id once e e' h k)
  ]
  | inr e ↦ elim (Bool-cases (str_eq s.share_code d)) [
    | inl e' ↦ absurd (head_apart s ss d c id once e' e k h)
    | inr e' ↦
        codes_of-OneCode ss distinct c d id (sym (share_id_of_there s ss c e) ∙ h)
          (sym (share_id_of_there s ss d e') ∙ k)
  ]
]

pub IsDistinct-append :
    (xs ys : List FundShare) → IsDistinct (xs ++ ys) → IsDistinct xs × IsDistinct ys
IsDistinct-append [] ys h = (tt, h)
IsDistinct-append (x ∷ xs) ys (once, rest) =
    let (left, right) = IsDistinct-append xs ys rest in
    ((ground (arith, once, anyb-append (λ (s : FundShare). s.id == x.id) xs ys), left), right)
