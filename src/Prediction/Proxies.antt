-- ===== src/Prediction/Proxies.antt =====
-- What the proxies of a day contribute in q2_analysis/predictor.py.
use mathlib.Core.Path.{subst}
use qdii_observatory.Common.{
  ◌≡◌, refl, sym, ap, ◌∙◌, Bool, inl, inr, Option, none, some, List, [], ◌∷◌, map, filterb, is_some,
  Bool-cases, String,
}
use qdii_observatory.Common.Decimal.{Decimal, whole, add, multiply, sum_from}
use qdii_observatory.Common.Outcomes.{Outcome, done, bind-inv, done_inj}
use qdii_observatory.Prediction.Schema.{
  FundProxyConfig, ProxyDefinition, ProxyReturnInput, Contribution, DayInput, PredictError,
}
use qdii_observatory.Prediction.Rules.{quantized, quantized_option, weighted_option, total}
use qdii_observatory.Prediction.Weights.{
  undisclosed_equity_weight, proxy_return_of, return_of, proxy_contribution, priced_from, all_of,
}
use qdii_observatory.Prediction.Days.{proxy_items}

-- The contribution of each item, in the order of the items.
abbrev pub Each {ℓ κ} : {A : Type ℓ} {B : Type κ} → (A → B → Type 0) → List A → List B → Type 0
Each R [] [] = Unit {0}
Each R [] (b ∷ ys) = ⊥
Each R (a ∷ xs) [] = ⊥
Each R (a ∷ xs) (b ∷ ys) = R a b × Each R xs ys

pub all_of-Each {ℓ κ} :
    {A : Type ℓ} {B : Type κ} (R : A → B → Type 0) (f : A → Outcome PredictError B)
    → ((a : A) (b : B) → f a ≡ done b → R a b)
    → (xs : List A) (ys : List B) → all_of f xs ≡ done ys
    → Each R xs ys
unfolding all_of
all_of-Each R f each [] ys e = let same : [] ≡ ys = cc e in rw (← same) tt
all_of-Each R f each (a ∷ xs) ys e =
    let (b, first, rest) = bind-inv (f a) _ e in
    let (others, found, last) = bind-inv (all_of f xs) _ rest in
    let same : b ∷ others ≡ ys = cc last in
    rw (← same) (each a b first, all_of-Each R f each xs others found)

module _ (undisclosed : Decimal) (returns : List ProxyReturnInput) where
  -- The share of the undisclosed equity that a proxy stands for.
  abbrev pub proxy_share : ProxyDefinition → Decimal
  proxy_share definition = multiply undisclosed definition.weight

  abbrev pub has_return : ProxyDefinition → Bool
  has_return definition = is_some (return_of (proxy_return_of returns definition.symbol))

  -- The contribution of a proxy is its share times its return, or none without a return.
  abbrev pub OfProxy : ProxyDefinition → Contribution → Type 0
  OfProxy definition c =
      (quantized (proxy_share definition) ≡ done c.weight_pct)
      × (weighted_option (proxy_share definition)
            (return_of (proxy_return_of returns definition.symbol))
          ≡ done c.contribution_pct)

  proxy_contribution-OfProxy :
      (reason : String) (definition : ProxyDefinition) (c : Contribution)
      → proxy_contribution undisclosed reason definition (proxy_return_of returns definition.symbol)
        ≡ done c
      → OfProxy definition c
  unfolding proxy_contribution
  proxy_contribution-OfProxy reason definition c e =
      let found = proxy_return_of returns definition.symbol in
      let (weight, h1, e1) = bind-inv (quantized (proxy_share definition)) _ e in
      let (return, h2, e2) = bind-inv (quantized_option (return_of found)) _ e1 in
      let (contribution, h3, e3) =
        bind-inv (weighted_option (proxy_share definition) (return_of found)) _ e2 in
      let same = done_inj {E = PredictError} _ c e3 in
      (
        h1 ∙ ap (λ (x : Contribution). done x.weight_pct) same,
        h3 ∙ ap (λ (x : Contribution). done x.contribution_pct) same,
      )

  priced_from-eq :
      (reason : String) (definitions : List ProxyDefinition) (sum : Decimal)
      → priced_from undisclosed reason returns definitions sum
        ≡ sum_from sum (map proxy_share (filterb has_return definitions))
  unfolding priced_from sum_from
  priced_from-eq reason [] sum = refl
  priced_from-eq reason (d ∷ ds) sum = elim (Bool-cases (has_return d)) [
    | inl h ↦ rw h (priced_from-eq reason ds (add sum (proxy_share d)))
    | inr h ↦ rw h (priced_from-eq reason ds sum)
  ]

  priced_from-total :
      (reason : String) (definitions : List ProxyDefinition)
      → priced_from undisclosed reason returns definitions (whole 0)
        ≡ total (map proxy_share (filterb has_return definitions))
  unfolding total
  priced_from-total reason definitions = priced_from-eq reason definitions (whole 0)

-- The contributions of the proxies, the weight that they are configured for, and the weight of those
-- with a return.
pub data OfProxies (input : DayInput) : List Contribution → Decimal → Decimal → Type 0 where
  unconfigured : input.proxy_config ≡ none → OfProxies input [] (whole 0) (whole 0)
  configured :
      (config : FundProxyConfig) (items : List Contribution)
      → input.proxy_config ≡ some config
      → Each (OfProxy (undisclosed_equity_weight input) input.proxy_returns) config.proxies items
      → OfProxies input items (undisclosed_equity_weight input) (
          total (
            map (proxy_share (undisclosed_equity_weight input) input.proxy_returns) (
              filterb
                (has_return (undisclosed_equity_weight input) input.proxy_returns)
                config.proxies)))

module _ (input : DayInput) where
  proxy_items-config :
      (config : Option FundProxyConfig) (items : List Contribution) (weight priced : Decimal)
      → input.proxy_config ≡ config
      → proxy_items (undisclosed_equity_weight input) input.proxy_returns config
        ≡ done (items, weight, priced)
      → OfProxies input items weight priced
  unfolding proxy_items
  proxy_items-config none items weight priced h e =
      let same = done_inj {E = PredictError} _ (items, weight, priced) e in
      subst (λ (t : List Contribution × Decimal × Decimal). OfProxies input t.0 t.1 t.2) same
        (OfProxies.unconfigured h)
  proxy_items-config (some config) items weight priced h e =
      let undisclosed = undisclosed_equity_weight input in
      let returns = input.proxy_returns in
      let (found, h1, e1) =
        bind-inv
          (all_of
            (λ definition.
              proxy_contribution undisclosed config.reason definition
                (proxy_return_of returns definition.symbol))
            config.proxies)
          _ e in
      let same = done_inj {E = PredictError} _ (items, weight, priced) e1 in
      let each =
        all_of-Each (OfProxy undisclosed returns) _
          (proxy_contribution-OfProxy undisclosed returns config.reason) config.proxies found h1 in
      subst (λ (t : List Contribution × Decimal × Decimal). OfProxies input t.0 t.1 t.2) same
        (subst (OfProxies input found undisclosed)
          (sym (priced_from-total undisclosed returns config.reason config.proxies))
          (OfProxies.configured config found h each))

  pub proxy_items-OfProxies :
      (items : List Contribution) (weight priced : Decimal)
      → proxy_items (undisclosed_equity_weight input) input.proxy_returns input.proxy_config
        ≡ done (items, weight, priced)
      → OfProxies input items weight priced
  proxy_items-OfProxies items weight priced e =
      proxy_items-config input.proxy_config items weight priced refl e
