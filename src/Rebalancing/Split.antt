-- ===== src/Rebalancing/Split.antt =====
-- internal/rebalancing/contribution.go, split.go, and the arithmetic of engine.go.
use yield_forge.Base.{
  ℕ, zero, suc, ◌&&◌, ◌||◌, replicate, Bool, true, false, List, [], ◌∷◌, if◌then◌else◌,
}
use yield_forge.Base.Int.{ℤ, pos, ltb_ℤ, leb_ℤ}
use yield_forge.Base.Int64.{add64, sub64, mul64, quo64}
use yield_forge.Base.Result.{Result, ok, err, invalid_contribution}
use yield_forge.Money.Ratio.{apply_bps}
use yield_forge.Money.Allocate.{allocate_bps}
use yield_forge.Dashboard.Compute.{AssetClass, fii, fixed_income, stocks, etfs}
use yield_forge.Profile.Values.{RiskProfile, conservative, moderate, aggressive, unset}

pub record Contribution : Type 0 where
  pub centavos : ℤ

unfoldable pub parse_contribution : ℤ → Result Contribution
parse_contribution centavos =
    if leb_ℤ centavos (pos 0) then err invalid_contribution else ok (record { centavos = centavos })

-- The map `ByClass` answers 0 for a class that it does not hold.
pub record Allocation : Type 0 where
  pub total_centavos : ℤ
  pub by_class : AssetClass → ℤ

pub record AreaShare : Type 0 where
  pub class : AssetClass
  pub suggested_share_bps : ℤ
  pub suggested_amount_centavos : ℤ

abbrev pub split_classes : List AssetClass
split_classes = fii ∷ fixed_income ∷ []

abbrev pub fii_target : RiskProfile → ℤ
fii_target conservative = pos 3000
fii_target moderate = pos 5000
fii_target aggressive = pos 7000
fii_target unset = pos 5000

abbrev pub fixed_income_target : RiskProfile → ℤ
fixed_income_target conservative = pos 7000
fixed_income_target moderate = pos 5000
fixed_income_target aggressive = pos 3000
fixed_income_target unset = pos 5000

abbrev pub target_shares : RiskProfile → AssetClass → ℤ
target_shares risk fii = fii_target risk
target_shares risk fixed_income = fixed_income_target risk
target_shares risk stocks = pos 0
target_shares risk etfs = pos 0

-- `weights[i]` after the first loop: the gap, or the zero of `make`.
unfoldable pub gap_weight : ℤ → RiskProfile → Allocation → AssetClass → ℤ
gap_weight future_total risk current c =
    let gap = sub64 (apply_bps future_total (target_shares risk c)) (current.by_class c) in
    if ltb_ℤ (pos 0) gap then gap else pos 0

unfoldable pub gap_weights : ℤ → RiskProfile → Allocation → List AssetClass → List ℤ
gap_weights future_total risk current [] = []
gap_weights future_total risk current (c ∷ cs) =
    gap_weight future_total risk current c ∷ gap_weights future_total risk current cs

-- `anyGap`, which the loop sets where it writes a gap, and a gap is positive.
unfoldable pub any_gap : List ℤ → Bool
any_gap [] = false
any_gap (w ∷ ws) = if ltb_ℤ (pos 0) w then true else any_gap ws

unfoldable pub target_weights : RiskProfile → List AssetClass → List ℤ
target_weights risk [] = []
target_weights risk (c ∷ cs) = target_shares risk c ∷ target_weights risk cs

unfoldable pub split_weights : Allocation → RiskProfile → Contribution → List ℤ
split_weights current risk contribution =
    let future_total = add64 current.total_centavos contribution.centavos in
    let weights = gap_weights future_total risk current split_classes in
    if any_gap weights then weights else target_weights risk split_classes

-- The last loop of `Split`.
unfoldable pub area_shares : ℤ → List AssetClass → List ℤ → List AreaShare
area_shares amount (c ∷ cs) (s ∷ ss) =
    let rest = area_shares amount cs ss in
    if leb_ℤ s (pos 0) && leb_ℤ (pos 0) s
    then rest
    else record {
      class = c;
      suggested_share_bps = s;
      suggested_amount_centavos = apply_bps amount s;
    }
      ∷ rest
area_shares amount _ _ = []

unfoldable pub split : Allocation → RiskProfile → Contribution → List AreaShare
split current risk contribution =
    area_shares contribution.centavos split_classes
      (allocate_bps (split_weights current risk contribution))

-- engine.go: the share of the named class in a split, or 0.
abbrev pub class_eq : AssetClass → AssetClass → Bool
class_eq fii fii = true
class_eq fixed_income fixed_income = true
class_eq stocks stocks = true
class_eq etfs etfs = true
class_eq _ _ = false

unfoldable pub area_share_bps : List AreaShare → AssetClass → ℤ
area_share_bps [] class = pos 0
area_share_bps (a ∷ rest) class =
    if class_eq a.class class then a.suggested_share_bps else area_share_bps rest class

-- `IllustrativeShareBps` of the candidates from index i on.
unfoldable pub illustrative_from : ℤ → ℤ → ℤ → ℕ → List ℤ
illustrative_from base remainder i zero = []
illustrative_from base remainder i (suc n) =
    (if ltb_ℤ i remainder then add64 base (pos 1) else base)
    ∷ illustrative_from base remainder (add64 i (pos 1)) n

-- What `assignIllustrativeShares` writes into n candidates, whose shares are 0 before.
unfoldable pub assign_illustrative_shares : ℕ → ℤ → List ℤ
assign_illustrative_shares n fii_area_bps =
    if leb_ℤ (pos n) (pos 0) || leb_ℤ fii_area_bps (pos 0)
    then replicate n (pos 0)
    else let base = quo64 fii_area_bps (pos n) in
      illustrative_from base (sub64 fii_area_bps (mul64 base (pos n))) (pos 0) n
