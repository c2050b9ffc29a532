-- ===== src/Insight/Gate.antt =====
-- internal/insight/insight.go, advice.go and gate.go. The compiled expressions of `orderPatterns` are
-- a parameter, each a test of a text, as package regexp runs them; facts and task of a request go
-- through unread, and the disclaimer is a constant.
use yield_forge.Base.{
  ◌≡◌, refl, Bool, true, false, List, [], ◌∷◌, ◌++◌, if◌then◌else◌, All, inl, inr, Bool-cases,
  arith, ◌↔◌,
}
use yield_forge.Base.Text.{Text, text_eq, trim_space}
use yield_forge.Base.Result.{
  Result, ok, err, ◌>>=◌, missing_explanation, advice_detected, Result-cases,
}

pub record Insight : Type 0 where
  pub category : Text
  pub title : Text
  pub detail : Text
  pub explanation : Text

pub record InsightResult : Type 0 where
  pub insights : List Insight
  pub disclaimer : Text

abbrev pub Pattern : Type 0
Pattern = Text → Bool

unfoldable pub contains_order : List Pattern → Text → Bool
contains_order [] text = false
contains_order (p ∷ ps) text = if p text then true else contains_order ps text

-- The four fields, joined by line ends.
abbrev pub insight_text : Insight → Text
insight_text i = i.category ++ 10 ∷ i.title ++ 10 ∷ i.detail ++ 10 ∷ i.explanation

abbrev pub is_blank : Text → Bool
is_blank s = text_eq (trim_space s) []

-- The loop over the insights: the first violation is the error.
unfoldable pub check_insights : List Pattern → List Insight → Result (Unit {0})
check_insights ps [] = ok tt
check_insights ps (i ∷ is) =
    let rest = check_insights ps is in
    if is_blank i.explanation
    then err missing_explanation
    else if contains_order ps (insight_text i)
    then err advice_detected
    else rest

-- `gated.Generate` on the answer of the wrapped provider.
unfoldable pub gate : List Pattern → Text → Result InsightResult → Result InsightResult
gate ps disclaimer answer = do
  result ← answer
  _ ← check_insights ps result.insights
  ok (record { insights = result.insights; disclaimer = disclaimer })

-- What the gate promises of one insight.
pub record IsFit (ps : List Pattern) (i : Insight) : Type 0 where
  pub explained : is_blank i.explanation ≡ false
  pub no_order : All (λ p. p (insight_text i) ≡ false) ps

contains_order_iff :
    (ps : List Pattern) (text : Text)
    → (contains_order ps text ≡ false) ↔ All (λ p. p text ≡ false) ps
unfolding contains_order
contains_order_iff [] text = (λ h. tt, λ h. refl)
contains_order_iff (p ∷ ps) text =
    let rest = contains_order_iff ps text in
    elim (Bool-cases (p text)) [
      | inl found ↦
          (λ h. absurd (ground (arith, h, found)), λ a. absurd (ground (arith, a.0, found)))
      | inr clear ↦ (λ h. (clear, rest.0 (ground (arith, h, clear))), λ a. rw clear (rest.1 a.1))
    ]

check_insights-IsFit :
    (ps : List Pattern) (i : Insight) (is : List Insight)
    → (check_insights ps is ≡ ok tt) ↔ All (IsFit ps) is
    → check_insights ps (i ∷ is) ≡ ok tt
    → All (IsFit ps) (i ∷ is)
unfolding check_insights
check_insights-IsFit ps i is rest h =
    let order = contains_order_iff ps (insight_text i) in
    elim (Bool-cases (is_blank i.explanation)) [
      | inl blank ↦ absurd (ground (arith, h, blank))
      | inr explained ↦ elim (Bool-cases (contains_order ps (insight_text i))) [
        | inl found ↦ absurd (ground (arith, h, explained, found))
        | inr clear ↦ (
          record { explained = explained; no_order = order.0 clear },
          rest.0 (ground (arith, h, explained, clear)),
        )
      ]
    ]

-- The loop ends without an error exactly when every insight is fit.
check_insights_iff :
    (ps : List Pattern) (is : List Insight) → (check_insights ps is ≡ ok tt) ↔ All (IsFit ps) is
unfolding check_insights
check_insights_iff ps [] = (λ h. tt, λ h. refl)
check_insights_iff ps (i ∷ is) =
    let rest = check_insights_iff ps is in
    let order = contains_order_iff ps (insight_text i) in
    (
      λ h. check_insights-IsFit ps i is rest h,
      λ a. rw (a.0.explained, order.1 a.0.no_order) (rest.1 a.1),
    )

-- The gate passes the insights of the provider, all of them and unchanged, with the disclaimer
-- attached, exactly when each has an explanation that is not blank and matches no order pattern.
pub gate_iff :
    (ps : List Pattern) (disclaimer : Text) (a r : InsightResult)
    → (gate ps disclaimer (ok a) ≡ ok r) ↔ (
        All (IsFit ps) a.insights × (r ≡ record { insights = a.insights; disclaimer = disclaimer }))
unfolding gate
gate_iff ps d a r =
    let check = check_insights_iff ps a.insights in
    elim (Result-cases (check_insights ps a.insights)) [
      | inl (done, passed) ↦
          (λ h. (check.0 passed, ground (arith, h, passed)), λ k. ground (arith, k.1, passed))
      | inr (e, rejected) ↦ (
        λ h. absurd (ground (arith, h, rejected)),
        λ k. absurd (ground (arith, check.1 k.0, rejected)),
      )
    ]
