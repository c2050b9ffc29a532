-- ===== src/Marketdata/Ticker.antt =====
-- internal/marketdata/ticker.go.
use yield_forge.Base.{ℕ, ◌≡◌, ◌↔◌, Bool, true, false, ◌&&◌, [], ◌∷◌, leb, if◌then◌else◌, arith}
use yield_forge.Base.Text.{Text, Unicode, trim_space, to_upper, is_digit, text_eq, text_eq_iff}
use yield_forge.Base.Dict.{Eq}
use yield_forge.Base.Result.{Result, ok, err, invalid_ticker}

pub record Ticker : Type 0 where
  pub value : Text

abbrev is_upper : ℕ → Bool
is_upper c = leb b'A' c && leb c b'Z'

-- `tickerPattern`: four capital letters, then one digit or two.
unfoldable pub matches_ticker : Text → Bool
matches_ticker (a ∷ b ∷ c ∷ d ∷ e ∷ []) =
    is_upper a && is_upper b && is_upper c && is_upper d && is_digit e
matches_ticker (a ∷ b ∷ c ∷ d ∷ e ∷ f ∷ []) =
    is_upper a && is_upper b && is_upper c && is_upper d && is_digit e && is_digit f
matches_ticker _ = false

unfoldable pub parse_ticker : Unicode → Text → Result Ticker
parse_ticker u s =
    let v = to_upper u (trim_space s) in
    if matches_ticker v then ok (record { value = v }) else err invalid_ticker

abbrev pub ticker_eq : Ticker → Ticker → Bool
ticker_eq a b = text_eq a.value b.value

pub ticker_eq_iff : (a b : Ticker) → (ticker_eq a b ≡ true) ↔ (a ≡ b)
ticker_eq_iff a b = ground (arith, text_eq_iff a.value b.value)

instance abbrev pub ticker_key : Eq Ticker
ticker_key = record { beq = ticker_eq; beq_iff = ticker_eq_iff }
