-- ===== src/Base/Database.antt =====
-- What PostgreSQL and its driver do with the values that the stores hand over. A database answers
-- every statement: its outages are left out.
use yield_forge.Base.Int.{ℤ, pos, negsuc, leb_ℤ}
use yield_forge.Base.Result.{Error, failure}
use yield_forge.Base.Text.{Text}
use mathlib.Core.Bool.{Bool, ◌&&◌}
use mathlib.Core.Option.{Option}
use Prim.Native.Nat.{ℕ, ◌-◌, ◌^◌}

pub record Database : Type 0 where
  -- `$1::uuid`, read back by `::text`: the canonical form, or no value where the cast fails.
  pub uuid : Text → Option Text
  -- The value that a timestamptz column keeps of a time, and the one that a date column keeps.
  pub timestamp : ℤ → ℤ
  pub date : ℤ → ℤ
  -- The number-th value of gen_random_uuid(), in canonical form, and of now().
  pub new_id : ℕ → Text
  pub now : ℕ → ℤ

-- Any error of the database but those that the code looks for.
abbrev pub sql_error : Error
sql_error = failure 0

-- The range of an `integer` column.
abbrev pub fits_integer : ℤ → Bool
fits_integer z = leb_ℤ z (pos (2 ^ 31 - 1)) && leb_ℤ (negsuc (2 ^ 31 - 1)) z
