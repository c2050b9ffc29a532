-- ===== src/Tests/History.antt =====
-- internal/portfolio over its tables, with the calls of another user in between.
use yield_forge.Base.{◌≡◌, ◌≢◌, refl, some, List, [], ◌∷◌, arith}
use yield_forge.Base.Int.{pos}
use yield_forge.Base.Text.{codes}
use yield_forge.Base.Result.{err, macro_not_found}
use yield_forge.Portfolio.Service.{MacroReader, list_holdings}
use yield_forge.Portfolio.Postgres.{Tables}
use yield_forge.Portfolio.Postgres.Statements.{postgres}
use yield_forge.Portfolio.Postgres.Runs.{
  Request, adds_fii, edits_fii, drops_fii, run, list_holdings-run,
}
use yield_forge.Tests.{plain, database}
use yield_forge.Tests.Portfolio.{fund_input}

abbrev pub no_rates : MacroReader
no_rates ind = err macro_not_found

abbrev pub tables : Tables
tables = record {
  fii_rows =
      record {
        id = codes "h1";
        user_id = codes "ana";
        ticker = codes "HGLG11";
        quantity = pos 10;
        average_price_centavos = pos 15990;
        created_at = pos 1;
        updated_at = pos 1;
      }
      ∷ [];
  fixed_rows = [];
  users = codes "ana" ∷ codes "bia" ∷ [];
  drawn = 0;
}

-- Another user adds a holding, then tries the identifier of the first user's.
abbrev requests : List Request
requests =
    record { user_id = codes "bia"; at = pos 2; call = adds_fii fund_input }
    ∷ record { user_id = codes "bia"; at = pos 3; call = edits_fii (codes "h1") fund_input }
    ∷ record { user_id = codes "bia"; at = pos 4; call = drops_fii (codes "h1") }
    ∷ []

other_user : some (codes "bia") ≢ some (codes "ana")
other_user e = ground (arith, e)

list_holdings-run_example :
    list_holdings
      (postgres database plain)
      no_rates
      (codes "ana")
      (run database plain no_rates requests tables)
    ≡ list_holdings (postgres database plain) no_rates (codes "ana") tables
list_holdings-run_example =
    list_holdings-run database plain no_rates (codes "ana") (codes "ana") requests tables refl
      (other_user, (other_user, (other_user, tt)))
