-- ===== src/Base/Unique.antt =====
-- Rows that a unique index finds by the value of a column, and the statements on one such row.
use yield_forge.Base.Text.{Text, text_eq, text_eq_iff, text_eq_refl}
use yield_forge.Base.Tests.{if◌then◌else◌, Bool-cases, Option-cases}
use yield_forge.Base.Lists.{All}
use mathlib.Core.Path.{◌≡◌, refl, sym, subst, ◌∙◌}
use mathlib.Core.Logic.{◌≢◌, inl, inr}
use mathlib.Core.Bool.{Bool, true, false}
use mathlib.Core.Option.{Option, none, some}
use mathlib.Core.List.{List, [], ◌∷◌, ◌++◌}
use native.Mathlib.Omega.{arith}

-- The first row with a value of a column, as under a unique index.
module _ {R : Type 0} (key : R → Text) where
  unfoldable pub find_by : Text → List R → Option R
  find_by k [] = none
  find_by k (r ∷ rs) = if text_eq (key r) k then some r else find_by k rs

  unfoldable pub drop_by : Text → List R → List R
  drop_by k [] = []
  drop_by k (r ∷ rs) = let rest = drop_by k rs in if text_eq (key r) k then rest else r ∷ rest

  -- Whether a unique index lets a value in.
  abbrev pub is_none : Option R → Bool
  is_none none = true
  is_none (some r) = false

  abbrev pub is_free : Text → List R → Bool
  is_free k rs = is_none (find_by k rs)

  pub is_free-none : (k : Text) (rs : List R) → is_free k rs ≡ true → find_by k rs ≡ none
  is_free-none k rs free = elim (Option-cases (find_by k rs)) [
    | inl missing ↦ missing
    | inr (r, found) ↦ ground (arith, free, found)
  ]

  -- No two rows have the same value.
  unfoldable pub IsUnique : List R → Type 0
  IsUnique [] = Unit
  IsUnique (r ∷ rs) = (find_by (key r) rs ≡ none) × IsUnique rs

  pub find_by-key : (k : Text) (rs : List R) (r : R) → find_by k rs ≡ some r → key r ≡ k
  unfolding find_by
  find_by-key k [] r found = ground (arith, found)
  find_by-key k (s ∷ rs) r found = ground (arith, found, text_eq_iff (key s) k, find_by-key k rs r)

  pub find_by-All :
      (P : R → Type 0) (k : Text) (rs : List R) (r : R) → All P rs → find_by k rs ≡ some r → P r
  unfolding find_by
  find_by-All P k [] r a found = ground (arith, found)
  find_by-All P k (s ∷ rs) r (p, a) found = elim (Bool-cases (text_eq (key s) k)) [
    | inl here ↦ let same : s ≡ r = ground (arith, found, here) in subst P same p
    | inr there ↦ find_by-All P k rs r a (ground (arith, found, there))
  ]

  pub find_by-append_new :
      (rs : List R) (r : R) → find_by (key r) rs ≡ none → find_by (key r) (rs ++ r ∷ []) ≡ some r
  unfolding find_by
  find_by-append_new [] r free = ground (arith, text_eq_refl (key r))
  find_by-append_new (s ∷ rs) r free = ground (arith, free, find_by-append_new rs r)

  pub find_by-append_old :
      (k : Text) (rs : List R) (r x : R) → find_by k rs ≡ some x → find_by k (rs ++ r ∷ []) ≡ some x
  unfolding find_by
  find_by-append_old k [] r x found = ground (arith, found)
  find_by-append_old k (s ∷ rs) r x found = ground (arith, found, find_by-append_old k rs r x)

  pub find_by-append_other :
      (k : Text) (rs : List R) (r : R) → key r ≢ k → find_by k (rs ++ r ∷ []) ≡ find_by k rs
  unfolding find_by
  find_by-append_other k [] r ne = ground (arith, text_eq_iff (key r) k)
  find_by-append_other k (s ∷ rs) r ne = ground (arith, find_by-append_other k rs r ne)

  pub find_by-drop_by : (k : Text) (rs : List R) → find_by k (drop_by k rs) ≡ none
  unfolding find_by drop_by
  find_by-drop_by k [] = refl
  find_by-drop_by k (r ∷ rs) = ground (arith, find_by-drop_by k rs)

  pub find_by-drop_by_other :
      (j k : Text) (rs : List R) → k ≢ j → find_by j (drop_by k rs) ≡ find_by j rs
  unfolding find_by drop_by
  find_by-drop_by_other j k [] ne = refl
  find_by-drop_by_other j k (r ∷ rs) ne =
      ground (arith, text_eq_iff (key r) k, text_eq_iff (key r) j, find_by-drop_by_other j k rs ne)

  pub append-IsUnique :
      (rs : List R) (r : R) → find_by (key r) rs ≡ none → IsUnique rs → IsUnique (rs ++ r ∷ [])
  unfolding find_by IsUnique
  append-IsUnique [] r free u = (refl, tt)
  append-IsUnique (s ∷ rs) r free (fresh, u) = elim (Bool-cases (text_eq (key s) (key r))) [
    | inl same ↦ ground (arith, free, same)
    | inr apart ↦ (
      find_by-append_other (key s) rs r
            (λ e. ground (arith, apart, text_eq_iff (key s) (key r), sym e))
          ∙ fresh,
      append-IsUnique rs r (ground (arith, free, apart)) u,
    )
  ]

  pub drop_by-IsUnique : (k : Text) (rs : List R) → IsUnique rs → IsUnique (drop_by k rs)
  unfolding drop_by IsUnique
  drop_by-IsUnique k [] u = tt
  drop_by-IsUnique k (r ∷ rs) (fresh, u) = elim (Bool-cases (text_eq (key r) k)) [
    | inl same ↦ rw same (drop_by-IsUnique k rs u)
    | inr apart ↦ rw apart (
      find_by-drop_by_other (key r) k rs (λ e. ground (arith, apart, text_eq_iff (key r) k, sym e))
          ∙ fresh,
      drop_by-IsUnique k rs u,
    )
  ]

  pub drop_by-All : (P : R → Type 0) (k : Text) (rs : List R) → All P rs → All P (drop_by k rs)
  unfolding drop_by
  drop_by-All P k [] a = tt
  drop_by-All P k (r ∷ rs) (p, a) = elim (Bool-cases (text_eq (key r) k)) [
    | inl same ↦ rw same (drop_by-All P k rs a)
    | inr apart ↦ rw apart (p, drop_by-All P k rs a)
  ]

-- A row that one column finds is the one that a unique column finds.
pub find_by-find_by :
    {R : Type 0} (key other : R → Text) (k : Text) (rs : List R) (r : R)
    → IsUnique other rs
    → find_by key k rs ≡ some r
    → find_by other (other r) rs ≡ some r
unfolding find_by IsUnique
find_by-find_by key other k [] r u found = ground (arith, found)
find_by-find_by key other k (s ∷ rs) r (fresh, u) found = elim (Bool-cases (text_eq (key s) k)) [
  | inl here ↦ ground (arith, found, here, text_eq_refl (other r))
  | inr there ↦
      let later = find_by-find_by key other k rs r u (ground (arith, found, there)) in
      elim (Bool-cases (text_eq (other s) (other r))) [
        | inl same ↦ ground (
          arith,
          later,
          subst (λ x. find_by other x rs ≡ none) ((text_eq_iff (other s) (other r)).0 same) fresh,
        )
        | inr apart ↦ ground (arith, later, apart)
      ]
]

-- `INSERT … ON CONFLICT DO UPDATE`, with what makes two rows conflict.
unfoldable pub upsert {ℓ} : {R : Type ℓ} → (R → R → Bool) → R → List R → List R
upsert same r [] = r ∷ []
upsert same r (s ∷ rs) = if same r s then r ∷ rs else s ∷ upsert same r rs
