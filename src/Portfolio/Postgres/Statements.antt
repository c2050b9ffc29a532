-- ===== src/Portfolio/Postgres/Statements.antt =====
-- internal/portfolio/postgres/postgres.go: the methods, which fill the interface of ports.go.
use yield_forge.Base.{suc, ◌&&◌, Option, none, some, List, [], ◌∷◌, ◌++◌, if◌then◌else◌}
use yield_forge.Base.Text.{Text, Unicode}
use yield_forge.Base.Result.{Result, ok, err, holding_not_found}
use yield_forge.Base.Table.{has_user, find_row, update_rows, delete_rows, owned_rows, sort_rows}
use yield_forge.Base.Database.{Database, fits_integer, sql_error}
use yield_forge.Portfolio.Holding.{FiiHolding, FixedIncomeHolding}
use yield_forge.Portfolio.Service.{Repository}
use yield_forge.Portfolio.Postgres.{
  Tables, FiiRow, FixedRow, fii_columns, fixed_columns, rebuild_fii, rebuild_fixed_income,
  scan_rows, new_fii_row, new_fixed_row, set_fii, set_fixed,
}

module _ (db : Database) (u : Unicode) where
  -- Each statement, by what the casts of its identifiers and its search give.
  abbrev pub insert_fii : Option Text → FiiHolding → Tables → Result FiiHolding × Tables
  insert_fii none h s = (err sql_error, s)
  insert_fii (some owner) h s =
      let r = new_fii_row db owner s.drawn h in
      if has_user owner s.users && fits_integer r.quantity
      then (
        ok (record h { id = r.id; created_at = r.created_at; updated_at = r.updated_at }),
        record s { fii_rows = s.fii_rows ++ r ∷ []; drawn = suc s.drawn },
      )
      else (err sql_error, s)

  unfoldable pub create_fii : FiiHolding → Tables → Result FiiHolding × Tables
  create_fii h s = insert_fii (db.uuid h.user_id) h s

  abbrev pub select_fii : Option Text → Tables → Result (List FiiHolding)
  select_fii none s = err sql_error
  select_fii (some owner) s =
      scan_rows (rebuild_fii u) (sort_rows fii_columns [] (owned_rows fii_columns owner s.fii_rows))

  unfoldable pub list_fii : Text → Tables → Result (List FiiHolding)
  list_fii user_id s = select_fii (db.uuid user_id) s

  abbrev pub change_fii :
      Text → Text → FiiHolding → Tables → Option FiiRow → Result FiiHolding × Tables
  change_fii id owner h s none = (err holding_not_found, s)
  change_fii id owner h s (some r) = (
    ok (record h { created_at = r.created_at; updated_at = db.timestamp h.updated_at }),
    record s { fii_rows = update_rows fii_columns id owner (set_fii db h) s.fii_rows },
  )

  abbrev pub cast_change_fii :
      Option Text → Option Text → FiiHolding → Tables → Result FiiHolding × Tables
  cast_change_fii none owner h s = (err holding_not_found, s)
  cast_change_fii (some id) none h s = (err holding_not_found, s)
  cast_change_fii (some id) (some owner) h s =
      change_fii id owner h s (find_row fii_columns id owner s.fii_rows)

  -- The driver writes the integers before the database casts the identifiers.
  abbrev pub change_fii_of :
      Option Text → Option Text → FiiHolding → Tables → Result FiiHolding × Tables
  change_fii_of id owner h s =
      if fits_integer h.quantity.value then cast_change_fii id owner h s else (err sql_error, s)

  unfoldable pub update_fii : FiiHolding → Tables → Result FiiHolding × Tables
  update_fii h s = change_fii_of (db.uuid h.id) (db.uuid h.user_id) h s

  -- `deleteHolding`, on either table: whether the statement found a row, and the state after it.
  abbrev pub deleted : {R : Type 0} → Option R → Tables → Tables → Result (Unit {0}) × Tables
  deleted none after s = (err holding_not_found, s)
  deleted (some r) after s = (ok tt, after)

  abbrev pub remove_fii : Option Text → Option Text → Tables → Result (Unit {0}) × Tables
  remove_fii (some id) (some owner) s =
      deleted (find_row fii_columns id owner s.fii_rows)
        (record s { fii_rows = delete_rows fii_columns id owner s.fii_rows }) s
  remove_fii _ _ s = (err holding_not_found, s)

  unfoldable pub delete_fii : Text → Text → Tables → Result (Unit {0}) × Tables
  delete_fii user_id id s = remove_fii (db.uuid id) (db.uuid user_id) s

  abbrev pub insert_fixed :
      Option Text → FixedIncomeHolding → Tables → Result FixedIncomeHolding × Tables
  insert_fixed none h s = (err sql_error, s)
  insert_fixed (some owner) h s =
      let r = new_fixed_row db owner s.drawn h in
      if has_user owner s.users && fits_integer r.annual_rate_bps
      then (
        ok (record h { id = r.id; created_at = r.created_at; updated_at = r.updated_at }),
        record s { fixed_rows = s.fixed_rows ++ r ∷ []; drawn = suc s.drawn },
      )
      else (err sql_error, s)

  unfoldable pub create_fixed : FixedIncomeHolding → Tables → Result FixedIncomeHolding × Tables
  create_fixed h s = insert_fixed (db.uuid h.user_id) h s

  abbrev pub select_fixed : Option Text → Tables → Result (List FixedIncomeHolding)
  select_fixed none s = err sql_error
  select_fixed (some owner) s =
      scan_rows (rebuild_fixed_income u)
        (sort_rows fixed_columns [] (owned_rows fixed_columns owner s.fixed_rows))

  unfoldable pub list_fixed : Text → Tables → Result (List FixedIncomeHolding)
  list_fixed user_id s = select_fixed (db.uuid user_id) s

  abbrev pub change_fixed :
      Text
      → Text
      → FixedIncomeHolding
      → Tables
      → Option FixedRow
      → Result FixedIncomeHolding × Tables
  change_fixed id owner h s none = (err holding_not_found, s)
  change_fixed id owner h s (some r) = (
    ok (record h { created_at = r.created_at; updated_at = db.timestamp h.updated_at }),
    record s { fixed_rows = update_rows fixed_columns id owner (set_fixed db h) s.fixed_rows },
  )

  abbrev pub cast_change_fixed :
      Option Text → Option Text → FixedIncomeHolding → Tables → Result FixedIncomeHolding × Tables
  cast_change_fixed none owner h s = (err holding_not_found, s)
  cast_change_fixed (some id) none h s = (err holding_not_found, s)
  cast_change_fixed (some id) (some owner) h s =
      change_fixed id owner h s (find_row fixed_columns id owner s.fixed_rows)

  -- The driver writes the integers before the database casts the identifiers.
  abbrev pub change_fixed_of :
      Option Text → Option Text → FixedIncomeHolding → Tables → Result FixedIncomeHolding × Tables
  change_fixed_of id owner h s =
      if fits_integer h.annual_rate_bps then cast_change_fixed id owner h s else (err sql_error, s)

  unfoldable pub update_fixed : FixedIncomeHolding → Tables → Result FixedIncomeHolding × Tables
  update_fixed h s = change_fixed_of (db.uuid h.id) (db.uuid h.user_id) h s

  abbrev pub remove_fixed : Option Text → Option Text → Tables → Result (Unit {0}) × Tables
  remove_fixed (some id) (some owner) s =
      deleted (find_row fixed_columns id owner s.fixed_rows)
        (record s { fixed_rows = delete_rows fixed_columns id owner s.fixed_rows }) s
  remove_fixed _ _ s = (err holding_not_found, s)

  unfoldable pub delete_fixed : Text → Text → Tables → Result (Unit {0}) × Tables
  delete_fixed user_id id s = remove_fixed (db.uuid id) (db.uuid user_id) s

  abbrev pub postgres : Repository Tables
  postgres = record {
    create_fii = create_fii;
    list_fii = list_fii;
    update_fii = update_fii;
    delete_fii = delete_fii;
    create_fixed = create_fixed;
    list_fixed = list_fixed;
    update_fixed = update_fixed;
    delete_fixed = delete_fixed;
  }
