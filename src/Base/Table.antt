-- ===== src/Base/Table.antt =====
-- Rows of an SQL table that carry an identifier and the identifier of their owner: the statements
-- that are scoped by them, and ORDER BY over a time.
use yield_forge.Base.Int.{ℤ, ltb_ℤ}
use yield_forge.Base.Text.{Text, text_eq, text_eq_iff}
use yield_forge.Base.Tests.{if◌then◌else◌}
use mathlib.Core.Path.{◌≡◌, refl}
use mathlib.Core.Logic.{◌≢◌}
use mathlib.Core.Bool.{Bool, true, false, ◌&&◌}
use mathlib.Core.Option.{Option, none, some}
use mathlib.Core.List.{List, [], ◌∷◌, ◌++◌}
use native.Mathlib.Omega.{arith}

pub record Columns (R : Type 0) : Type 0 where
  pub id_of : R → Text
  pub owner_of : R → Text
  pub created_of : R → ℤ

module _ {R : Type 0} (c : Columns R) where
  -- `WHERE id = … AND user_id = …`.
  abbrev pub is_row : Text → Text → R → Bool
  is_row id owner r = text_eq (c.id_of r) id && text_eq (c.owner_of r) owner

  unfoldable pub find_row : Text → Text → List R → Option R
  find_row id owner [] = none
  find_row id owner (r ∷ rs) = if is_row id owner r then some r else find_row id owner rs

  unfoldable pub update_rows : Text → Text → (R → R) → List R → List R
  update_rows id owner f [] = []
  update_rows id owner f (r ∷ rs) =
      (if is_row id owner r then f r else r) ∷ update_rows id owner f rs

  unfoldable pub delete_rows : Text → Text → List R → List R
  delete_rows id owner [] = []
  delete_rows id owner (r ∷ rs) =
      let rest = delete_rows id owner rs in if is_row id owner r then rest else r ∷ rest

  -- `WHERE user_id = …`.
  unfoldable pub owned_rows : Text → List R → List R
  owned_rows owner [] = []
  owned_rows owner (r ∷ rs) =
      let rest = owned_rows owner rs in if text_eq (c.owner_of r) owner then r ∷ rest else rest

  -- `ORDER BY created_at`; rows of the same time stay in the order of their insertion.
  unfoldable pub insert_row : R → List R → List R
  insert_row r [] = r ∷ []
  insert_row r (s ∷ rs) =
      if ltb_ℤ (c.created_of r) (c.created_of s) then r ∷ s ∷ rs else s ∷ insert_row r rs

  unfoldable pub sort_rows : List R → List R → List R
  sort_rows sorted [] = sorted
  sort_rows sorted (r ∷ rs) = sort_rows (insert_row r sorted) rs

  -- A statement that is scoped by one owner touches no row of another.
  pub owned_rows-update_rows :
      (id owner other : Text) (f : R → R) (rs : List R)
      → owner ≢ other
      → ((r : R) → c.owner_of (f r) ≡ c.owner_of r)
      → owned_rows other (update_rows id owner f rs) ≡ owned_rows other rs
  unfolding owned_rows update_rows
  owned_rows-update_rows id owner other f [] ne keeps = refl
  owned_rows-update_rows id owner other f (r ∷ rs) ne keeps = ground (
    arith,
    keeps r,
    text_eq_iff (c.owner_of r) owner,
    text_eq_iff (c.owner_of r) other,
    owned_rows-update_rows id owner other f rs ne keeps,
  )

  pub owned_rows-delete_rows :
      (id owner other : Text) (rs : List R)
      → owner ≢ other
      → owned_rows other (delete_rows id owner rs) ≡ owned_rows other rs
  unfolding owned_rows delete_rows
  owned_rows-delete_rows id owner other [] ne = refl
  owned_rows-delete_rows id owner other (r ∷ rs) ne = ground (
    arith,
    text_eq_iff (c.owner_of r) owner,
    text_eq_iff (c.owner_of r) other,
    owned_rows-delete_rows id owner other rs ne,
  )

  pub owned_rows-append :
      (other : Text) (rs : List R) (r : R)
      → c.owner_of r ≢ other
      → owned_rows other (rs ++ r ∷ []) ≡ owned_rows other rs
  unfolding owned_rows
  owned_rows-append other [] r ne = ground (arith, text_eq_iff (c.owner_of r) other)
  owned_rows-append other (s ∷ rs) r ne = ground (arith, owned_rows-append other rs r ne)

  pub owned_rows-append_own :
      (owner : Text) (rs : List R) (r : R)
      → c.owner_of r ≡ owner
      → owned_rows owner (rs ++ r ∷ []) ≡ owned_rows owner rs ++ r ∷ []
  unfolding owned_rows
  owned_rows-append_own owner [] r e = ground (arith, text_eq_iff (c.owner_of r) owner)
  owned_rows-append_own owner (s ∷ rs) r e = ground (arith, owned_rows-append_own owner rs r e)

  pub sort_rows-append :
      (sorted rs : List R) (r : R)
      → sort_rows sorted (rs ++ r ∷ []) ≡ insert_row r (sort_rows sorted rs)
  unfolding sort_rows
  sort_rows-append sorted [] r = refl
  sort_rows-append sorted (s ∷ rs) r = sort_rows-append (insert_row s sorted) rs r

-- The foreign key on users.
unfoldable pub has_user : Text → List Text → Bool
has_user user [] = false
has_user user (v ∷ vs) = if text_eq v user then true else has_user user vs
