-- ===== src/Profile/Objectives.antt =====
-- internal/profile/objective.go: lists of objectives without repetition, and reading them back.
use yield_forge.Base.{
  Bool, false, ◌||◌, List, [], ◌∷◌, ◌++◌, map, ◌≡◌, ◌≢◌, refl, sym, ap, subst, ◌∙◌, inl, inr, arith,
  if◌then◌else◌, Bool-cases,
}
use yield_forge.Base.Text.{Text, Unicode, trim_space, to_lower, text_eq, codes}
use yield_forge.Base.Result.{ok, err, Result-cases, invalid_risk_profile}
use yield_forge.Profile.Values.{
  Objective, retirement, passive_income, wealth_preservation, long_term_growth, RiskProfile,
  conservative, moderate, aggressive, unset, objective_eq, parse_objective, parse_risk_profile,
  seen, add_objective, collect_objectives, non_empty, parse_objectives,
}
use yield_forge.Profile.Postgres.{risk_text, objective_text}

-- No objective stands in the list twice.
unfoldable pub IsDistinct : List Objective → Type 0
IsDistinct [] = Unit
IsDistinct (o ∷ os) = (seen o os ≡ false) × IsDistinct os

seen-append :
    (o p : Objective) (os : List Objective)
    → seen o (os ++ p ∷ []) ≡ (seen o os || objective_eq p o)
unfolding seen
seen-append o p [] = ground arith
seen-append o p (q ∷ os) = ground (arith, seen-append o p os)

objective_eq_sym : (o p : Objective) → objective_eq o p ≡ objective_eq p o
objective_eq_sym o p = ground arith

append-IsDistinct :
    (os : List Objective) (o : Objective)
    → IsDistinct os
    → seen o os ≡ false
    → IsDistinct (os ++ o ∷ [])
unfolding IsDistinct seen
append-IsDistinct [] o d new = (refl, tt)
append-IsDistinct (p ∷ os) o (fresh, d) new = (
  ground (arith, seen-append p o os, objective_eq_sym o p, fresh, new),
  append-IsDistinct os o d (ground (arith, new)),
)

add_objective-IsDistinct :
    (o : Objective) (out : List Objective) → IsDistinct out → IsDistinct (add_objective o out)
add_objective-IsDistinct o out d = elim (Bool-cases (seen o out)) [
  | inl known ↦ rw known d
  | inr new ↦ rw new (append-IsDistinct out o d new)
]

collect_objectives-IsDistinct :
    (u : Unicode) (raw : List Text) (out os : List Objective)
    → IsDistinct out
    → collect_objectives u raw out ≡ ok os
    → IsDistinct os
unfolding collect_objectives
collect_objectives-IsDistinct u [] out os d =
    λ h. let same : out ≡ os = ground (arith, h) in subst IsDistinct same d
collect_objectives-IsDistinct u (s ∷ raw) out os d = elim (Result-cases (parse_objective u s)) [
  | inl (o, parsed) ↦ rw parsed (
      collect_objectives-IsDistinct u raw (add_objective o out) os
        (add_objective-IsDistinct o out d))
  | inr (e, failed) ↦ rw failed (λ h. ground (arith, h))
]

pub parse_objectives-IsDistinct :
    (u : Unicode) (raw : List Text) (os : List Objective)
    → parse_objectives u raw ≡ ok os
    → IsDistinct os × (os ≢ [])
unfolding parse_objectives IsDistinct
parse_objectives-IsDistinct u raw os = elim (Result-cases (collect_objectives u raw [])) [
  | inl (kept, collected) ↦
      rw collected (kept_of kept (collect_objectives-IsDistinct u raw [] kept tt collected))
  | inr (e, failed) ↦ rw failed (λ h. ground (arith, h))
]
  where
    kept_of :
        (kept : List Objective)
        → IsDistinct kept
        → non_empty kept ≡ ok os
        → IsDistinct os × (os ≢ [])
    kept_of [] d h = ground (arith, h)
    kept_of (o ∷ kept) d h =
        let same : (o ∷ kept) ≡ os = ground (arith, h) in
        (subst IsDistinct same d, λ e. ground (arith, same, e))

pub parse_objective-objective_text :
    (u : Unicode) (o : Objective) → parse_objective u (objective_text o) ≡ ok o
unfolding parse_objective trim_space
parse_objective-objective_text u retirement = refl
parse_objective-objective_text u passive_income = refl
parse_objective-objective_text u wealth_preservation = refl
parse_objective-objective_text u long_term_growth = refl

seen_later :
    (out : List Objective) (o : Objective) (os : List Objective)
    → IsDistinct (out ++ o ∷ os)
    → seen o out ≡ false
unfolding IsDistinct seen
seen_later [] o os d = refl
seen_later (p ∷ out) o os (fresh, d) =
    ground (arith, seen_later out o os d, objective_eq_sym p o, seen_middle p o out os, fresh)
  where
    seen_middle :
        (p o : Objective) (out os : List Objective)
        → seen p (out ++ o ∷ os) ≡ false
        → objective_eq o p ≡ false
    seen_middle p o [] os h = ground (arith, h)
    seen_middle p o (q ∷ out) os h = ground (arith, h, seen_middle p o out os)

append_assoc :
    (xs : List Objective) (y : Objective) (ys : List Objective)
    → (xs ++ y ∷ []) ++ ys ≡ xs ++ y ∷ ys
append_assoc [] y ys = refl
append_assoc (x ∷ xs) y ys = ap (λ z. x ∷ z) (append_assoc xs y ys)

append_nil : (xs : List Objective) → xs ++ [] ≡ xs
append_nil [] = refl
append_nil (x ∷ xs) = ap (λ z. x ∷ z) (append_nil xs)

collect_objectives-texts :
    (u : Unicode) (out os : List Objective)
    → IsDistinct (out ++ os)
    → collect_objectives u (map objective_text os) out ≡ ok (out ++ os)
unfolding collect_objectives
collect_objectives-texts u out [] d = ap ok (sym (append_nil out))
collect_objectives-texts u out (o ∷ os) d =
    let later = subst IsDistinct (sym (append_assoc out o os)) d in
    rw (parse_objective-objective_text u o, seen_later out o os d)
      (collect_objectives-texts u (out ++ o ∷ []) os later ∙ ap ok (append_assoc out o os))

-- Distinct objectives are read back from their texts.
pub parse_objectives-texts :
    (u : Unicode) (os : List Objective)
    → IsDistinct os
    → os ≢ []
    → parse_objectives u (map objective_text os) ≡ ok os
unfolding parse_objectives
parse_objectives-texts u [] d ne = absurd (ne refl)
parse_objectives-texts u (o ∷ os) d ne = rw (collect_objectives-texts u [] (o ∷ os) d) refl

never_unset :
    (a b c : Bool)
    → (if a
        then ok conservative
        else if b
        then ok moderate
        else if c
        then ok aggressive
        else err invalid_risk_profile)
      ≢ ok unset
never_unset a b c h = ground (arith, h)

pub parse_risk_profile-risk_text :
    (u : Unicode) (s : Text) (r : RiskProfile)
    → parse_risk_profile u s ≡ ok r
    → parse_risk_profile u (risk_text r) ≡ ok r
unfolding parse_risk_profile trim_space
parse_risk_profile-risk_text u s conservative h = refl
parse_risk_profile-risk_text u s moderate h = refl
parse_risk_profile-risk_text u s aggressive h = refl
parse_risk_profile-risk_text u s unset h =
    let rp = to_lower u (trim_space s) in
    absurd (
      never_unset (text_eq rp (codes "conservative")) (text_eq rp (codes "moderate"))
        (text_eq rp (codes "aggressive")) h)
