-- ===== src/Portfolio/Postgres/Isolation.antt =====
-- internal/portfolio over its tables: the calls of one user and the rows of another.
use yield_forge.Base.{
  ◌≡◌, ◌≢◌, refl, ap, Option, none, some, inl, inr, Option-cases, Bool-cases, ◌&&◌,
}
use yield_forge.Base.Text.{Text, Unicode}
use yield_forge.Base.Table.{
  has_user, find_row, owned_rows, owned_rows-append, owned_rows-update_rows, owned_rows-delete_rows,
}
use yield_forge.Base.Database.{Database, fits_integer}
use yield_forge.Portfolio.Holding.{FiiHolding, FixedIncomeHolding}
use yield_forge.Portfolio.Postgres.{
  Tables, fii_columns, fixed_columns, new_fii_row, new_fixed_row, set_fii, set_fixed,
}
use yield_forge.Portfolio.Postgres.Statements.{
  insert_fii, cast_change_fii, change_fii_of, remove_fii, insert_fixed, cast_change_fixed,
  change_fixed_of, remove_fixed,
}

-- The rows of `other` are the same in both tables.
pub record IsUntouched (other : Text) (s t : Tables) : Type 0 where
  pub fii : owned_rows fii_columns other t.fii_rows ≡ owned_rows fii_columns other s.fii_rows
  pub fixed :
      owned_rows fixed_columns other t.fixed_rows ≡ owned_rows fixed_columns other s.fixed_rows

-- An identifier that stands for no user, or for another one.
abbrev pub IsOther : Text → Option Text → Type 0
IsOther other o = o ≢ some other

pub unmoved : (other : Text) (s : Tables) → IsUntouched other s s
unmoved other s = record { fii = refl; fixed = refl }

module _ (db : Database) (u : Unicode) (other : Text) where
  pub insert_fii-IsUntouched :
      (o : Option Text) (h : FiiHolding) (s : Tables)
      → IsOther other o
      → IsUntouched other s (insert_fii db u o h s).1
  insert_fii-IsUntouched none h s ne = unmoved other s
  insert_fii-IsUntouched (some w) h s ne =
      let away : w ≢ other = λ e. ne (ap some e) in
      elim (Bool-cases (has_user w s.users && fits_integer h.quantity.value)) [
        | inl fits ↦ rw fits (record {
          fii = owned_rows-append fii_columns other s.fii_rows (new_fii_row db w s.drawn h) away;
          fixed = refl;
        })
        | inr refused ↦ rw refused (unmoved other s)
      ]

  cast_change_fii-IsUntouched :
      (i o : Option Text) (h : FiiHolding) (s : Tables)
      → IsOther other o
      → IsUntouched other s (cast_change_fii db u i o h s).1
  cast_change_fii-IsUntouched none o h s ne = unmoved other s
  cast_change_fii-IsUntouched (some id) none h s ne = unmoved other s
  cast_change_fii-IsUntouched (some id) (some w) h s ne =
      let away : w ≢ other = λ e. ne (ap some e) in
      let kept =
        owned_rows-update_rows fii_columns id w other (set_fii db h) s.fii_rows away (λ r. refl) in
      elim (Option-cases (find_row fii_columns id w s.fii_rows)) [
        | inl missing ↦ rw missing (unmoved other s)
        | inr (r, found) ↦ rw found (record { fii = kept; fixed = refl })
      ]

  pub change_fii_of-IsUntouched :
      (i o : Option Text) (h : FiiHolding) (s : Tables)
      → IsOther other o
      → IsUntouched other s (change_fii_of db u i o h s).1
  change_fii_of-IsUntouched i o h s ne = elim (Bool-cases (fits_integer h.quantity.value)) [
    | inl fits ↦ rw fits (cast_change_fii-IsUntouched i o h s ne)
    | inr refused ↦ rw refused (unmoved other s)
  ]

  pub remove_fii-IsUntouched :
      (i o : Option Text) (s : Tables)
      → IsOther other o
      → IsUntouched other s (remove_fii db u i o s).1
  remove_fii-IsUntouched none o s ne = unmoved other s
  remove_fii-IsUntouched (some id) none s ne = unmoved other s
  remove_fii-IsUntouched (some id) (some w) s ne =
      let away : w ≢ other = λ e. ne (ap some e) in
      let kept = owned_rows-delete_rows fii_columns id w other s.fii_rows away in
      elim (Option-cases (find_row fii_columns id w s.fii_rows)) [
        | inl missing ↦ rw missing (unmoved other s)
        | inr (r, found) ↦ rw found (record { fii = kept; fixed = refl })
      ]

  pub insert_fixed-IsUntouched :
      (o : Option Text) (h : FixedIncomeHolding) (s : Tables)
      → IsOther other o
      → IsUntouched other s (insert_fixed db u o h s).1
  insert_fixed-IsUntouched none h s ne = unmoved other s
  insert_fixed-IsUntouched (some w) h s ne =
      let away : w ≢ other = λ e. ne (ap some e) in
      elim (Bool-cases (has_user w s.users && fits_integer h.annual_rate_bps)) [
        | inl fits ↦ rw fits (record {
          fixed =
              owned_rows-append fixed_columns other s.fixed_rows (new_fixed_row db w s.drawn h)
                away;
          fii = refl;
        })
        | inr refused ↦ rw refused (unmoved other s)
      ]

  cast_change_fixed-IsUntouched :
      (i o : Option Text) (h : FixedIncomeHolding) (s : Tables)
      → IsOther other o
      → IsUntouched other s (cast_change_fixed db u i o h s).1
  cast_change_fixed-IsUntouched none o h s ne = unmoved other s
  cast_change_fixed-IsUntouched (some id) none h s ne = unmoved other s
  cast_change_fixed-IsUntouched (some id) (some w) h s ne =
      let away : w ≢ other = λ e. ne (ap some e) in
      let kept =
        owned_rows-update_rows fixed_columns id w other (set_fixed db h) s.fixed_rows away
          (λ r. refl) in
      elim (Option-cases (find_row fixed_columns id w s.fixed_rows)) [
        | inl missing ↦ rw missing (unmoved other s)
        | inr (r, found) ↦ rw found (record { fixed = kept; fii = refl })
      ]

  pub change_fixed_of-IsUntouched :
      (i o : Option Text) (h : FixedIncomeHolding) (s : Tables)
      → IsOther other o
      → IsUntouched other s (change_fixed_of db u i o h s).1
  change_fixed_of-IsUntouched i o h s ne = elim (Bool-cases (fits_integer h.annual_rate_bps)) [
    | inl fits ↦ rw fits (cast_change_fixed-IsUntouched i o h s ne)
    | inr refused ↦ rw refused (unmoved other s)
  ]

  pub remove_fixed-IsUntouched :
      (i o : Option Text) (s : Tables)
      → IsOther other o
      → IsUntouched other s (remove_fixed db u i o s).1
  remove_fixed-IsUntouched none o s ne = unmoved other s
  remove_fixed-IsUntouched (some id) none s ne = unmoved other s
  remove_fixed-IsUntouched (some id) (some w) s ne =
      let away : w ≢ other = λ e. ne (ap some e) in
      let kept = owned_rows-delete_rows fixed_columns id w other s.fixed_rows away in
      elim (Option-cases (find_row fixed_columns id w s.fixed_rows)) [
        | inl missing ↦ rw missing (unmoved other s)
        | inr (r, found) ↦ rw found (record { fixed = kept; fii = refl })
      ]
