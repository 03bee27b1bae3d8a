-- ===== src/Prediction/Soundness.antt =====
-- What a prediction that `predict_day` returns says: its guards hold, only usable returns
-- contribute, and its totals are those of its contributions.
use qdii_observatory.Common.{◌≡◌, sym, ap, ◌∙◌, true, Option, none, List, [], ◌∷◌, All}
use qdii_observatory.Common.Decimal.{Decimal, scaled, add, at_most}
use qdii_observatory.Common.Outcomes.{done, done_inj, bind-inv, then-inv, require-inv}
use qdii_observatory.Prediction.Schema.{
  HoldingReturnInput, FundHoldingReturnInput, Contribution, DayInput, PredictError, equity_nav_name,
  cash_weight_name, invalid_weight, security_name, fund_holding_name, disclosed_above_equity,
  weights_above_total, explained_above_total,
}
use qdii_observatory.Prediction.Rules.{
  quantized, quantized_option, is_weight, validate_weight, weighted_option, security_contribution,
  usable_return, fund_holding_contribution,
}
use qdii_observatory.Prediction.Weights.{
  validate_holdings, validate_fund_holdings, validate_day, all_of, disclosed_weight, fund_weight,
  undisclosed_equity_weight,
}
use mathlib.Core.Path.{subst}
use qdii_observatory.Prediction.Proxies.{Each, all_of-Each, OfProxies, proxy_items-OfProxies}
use qdii_observatory.Prediction.Days.{Parts, proxy_items, explained_weight, parts_of}

-- The contribution of a security is its weight times its return, or none without a return.
abbrev pub OfSecurity : HoldingReturnInput → Contribution → Type 0
OfSecurity item c =
    (quantized item.weight_pct ≡ done c.weight_pct)
    × (weighted_option item.weight_pct item.return_pct ≡ done c.contribution_pct)

-- The same of a fund, and none if it is not resolved.
abbrev pub OfFund : FundHoldingReturnInput → Contribution → Type 0
OfFund item c =
    (quantized item.weight_pct ≡ done c.weight_pct)
    × (weighted_option item.weight_pct (usable_return item) ≡ done c.contribution_pct)
    × (item.is_unresolved ≡ true → c.contribution_pct ≡ none)

security_contribution-OfSecurity :
    (item : HoldingReturnInput) (c : Contribution)
    → security_contribution item ≡ done c
    → OfSecurity item c
unfolding security_contribution
security_contribution-OfSecurity item c e =
    let (weight, h1, e1) = bind-inv (quantized item.weight_pct) _ e in
    let (return, h2, e2) = bind-inv (quantized_option item.return_pct) _ e1 in
    let (contribution, h3, e3) = bind-inv (weighted_option item.weight_pct item.return_pct) _ e2 in
    let weights : weight ≡ c.weight_pct = cc e3 in
    let contributions : contribution ≡ c.contribution_pct = cc e3 in
    (h1 ∙ ap done weights, h3 ∙ ap done contributions)

unresolved-none :
    (item : FundHoldingReturnInput) (contribution : Option Decimal)
    → item.is_unresolved ≡ true
    → weighted_option item.weight_pct (usable_return item) ≡ done contribution
    → contribution ≡ none
unfolding weighted_option usable_return
unresolved-none item contribution h e = let same = rw h at e in cc same

fund_holding_contribution-OfFund :
    (item : FundHoldingReturnInput) (c : Contribution)
    → fund_holding_contribution item ≡ done c
    → OfFund item c
unfolding fund_holding_contribution
fund_holding_contribution-OfFund item c e =
    let (weight, h1, e1) = bind-inv (quantized item.weight_pct) _ e in
    let (return, h2, e2) = bind-inv (quantized_option item.return_pct) _ e1 in
    let (contribution, h3, e3) =
      bind-inv (weighted_option item.weight_pct (usable_return item)) _ e2 in
    let weights : weight ≡ c.weight_pct = cc e3 in
    let contributions : contribution ≡ c.contribution_pct = cc e3 in
    (
      h1 ∙ ap done weights,
      h3 ∙ ap done contributions,
      λ h. sym contributions ∙ unresolved-none item contribution h h3,
    )

-- The guards of the weights.
pub record Accepts (input : DayInput) : Type 0 where
  pub equity : is_weight input.equity_nav_pct ≡ true
  pub cash : is_weight input.cash_weight_pct ≡ true
  pub holdings :
      All (λ (item : HoldingReturnInput). is_weight item.weight_pct ≡ true) input.holdings
  pub funds :
      All (λ (item : FundHoldingReturnInput). is_weight item.weight_pct ≡ true) input.fund_holdings

validate_holdings-inv :
    (items : List HoldingReturnInput)
    → validate_holdings items ≡ done tt
    → All (λ (item : HoldingReturnInput). is_weight item.weight_pct ≡ true) items
unfolding validate_holdings validate_weight
validate_holdings-inv [] e = tt
validate_holdings-inv (item ∷ items) e =
    let (h, rest) =
      require-inv (is_weight item.weight_pct) (invalid_weight (security_name item.name)) _ e in
    (h, validate_holdings-inv items rest)

validate_fund_holdings-inv :
    (items : List FundHoldingReturnInput)
    → validate_fund_holdings items ≡ done tt
    → All (λ (item : FundHoldingReturnInput). is_weight item.weight_pct ≡ true) items
unfolding validate_fund_holdings validate_weight
validate_fund_holdings-inv [] e = tt
validate_fund_holdings-inv (item ∷ items) e =
    let (h, rest) =
      require-inv (is_weight item.weight_pct) (invalid_weight (fund_holding_name item.name)) _ e in
    (h, validate_fund_holdings-inv items rest)

pub validate_day-Accepts : (input : DayInput) → validate_day input ≡ done tt → Accepts input
unfolding validate_day validate_weight
validate_day-Accepts input e =
    let (equity, e1) =
      require-inv (is_weight input.equity_nav_pct) (invalid_weight equity_nav_name) _ e in
    let (cash, e2) =
      require-inv (is_weight input.cash_weight_pct) (invalid_weight cash_weight_name) _ e1 in
    let (holdings, funds) = then-inv (validate_holdings input.holdings) _ e2 in
    record {
      equity = equity;
      cash = cash;
      holdings = validate_holdings-inv input.holdings holdings;
      funds = validate_fund_holdings-inv input.fund_holdings funds;
    }

-- The contributions of the items, and the guards of the sums.
pub record IsWhole (input : DayInput) (parts : Parts) : Type 0 where
  pub securities : Each OfSecurity input.holdings parts.securities
  pub funds : Each OfFund input.fund_holdings parts.funds
  pub proxies :
      OfProxies input parts.proxies parts.configured_proxy_weight parts.priced_proxy_weight
  pub disclosed : at_most (disclosed_weight input) (add input.equity_nav_pct (scaled 5 2)) ≡ true
  pub reported :
      at_most
        (add (add input.equity_nav_pct (fund_weight input)) input.cash_weight_pct)
        (scaled 10005 2)
      ≡ true
  pub explained : at_most (explained_weight input parts.priced_proxy_weight) (scaled 10005 2) ≡ true

pub parts_of-IsWhole :
    (input : DayInput) (parts : Parts) → parts_of input ≡ done parts → IsWhole input parts
unfolding parts_of
parts_of-IsWhole input parts e =
    let (securities, h1, e1) = bind-inv (all_of security_contribution input.holdings) _ e in
    let (disclosed, e2) =
      require-inv (at_most (disclosed_weight input) (add input.equity_nav_pct (scaled 5 2)))
        disclosed_above_equity _ e1 in
    let ((proxies, configured, priced), h3, e3) =
      bind-inv
        (proxy_items (undisclosed_equity_weight input) input.proxy_returns input.proxy_config) _
        e2 in
    let (funds, h4, e4) = bind-inv (all_of fund_holding_contribution input.fund_holdings) _ e3 in
    let (reported, e5) =
      require-inv
        (at_most (add (add input.equity_nav_pct (fund_weight input)) input.cash_weight_pct)
          (scaled 10005 2))
        weights_above_total _ e4 in
    let (explained, e6) =
      require-inv (at_most (explained_weight input priced) (scaled 10005 2)) explained_above_total _
        e5 in
    let whole_parts = done_inj {E = PredictError} _ parts e6 in
    let of_proxies = proxy_items-OfProxies input proxies configured priced h3 in
    let in_securities : securities ≡ parts.securities =
      ap (λ (x : Parts). x.securities) whole_parts in
    let in_funds : funds ≡ parts.funds = ap (λ (x : Parts). x.funds) whole_parts in
    let in_priced : priced ≡ parts.priced_proxy_weight =
      ap (λ (x : Parts). x.priced_proxy_weight) whole_parts in
    record {
      securities = rw (← in_securities) (
          all_of-Each OfSecurity security_contribution security_contribution-OfSecurity
            input.holdings securities h1);
      funds = rw (← in_funds) (
          all_of-Each OfFund fund_holding_contribution fund_holding_contribution-OfFund
            input.fund_holdings funds h4);
      proxies =
          subst
            (λ (x : Parts).
              OfProxies input x.proxies x.configured_proxy_weight x.priced_proxy_weight)
            whole_parts of_proxies;
      disclosed = disclosed;
      reported = reported;
      explained = rw (← in_priced) explained;
    }
