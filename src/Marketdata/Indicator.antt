-- ===== src/Marketdata/Indicator.antt =====
-- internal/marketdata/indicator.go.
use yield_forge.Base.{◌≡◌, ◌↔◌, Bool, true, false, List, [], ◌∷◌, map, if◌then◌else◌, arith}
use yield_forge.Base.Text.{Text, codes, text_eq, ascii_lower}
use yield_forge.Base.Dict.{Eq}
use yield_forge.Base.Result.{Result, ok, err, invalid_indicator}

pub data Indicator : Type 0 where
  selic ipca cdi ifix : Indicator

pub data MeasureUnit : Type 0 where
  bps points : MeasureUnit

abbrev pub all_indicators : List Indicator
all_indicators = selic ∷ ipca ∷ cdi ∷ ifix ∷ []

abbrev pub to_lower_ascii : Text → Text
to_lower_ascii s = map ascii_lower s

unfoldable pub parse_indicator : Text → Result Indicator
parse_indicator s =
    let ind = to_lower_ascii s in
    if text_eq ind (codes "selic")
    then ok selic
    else if text_eq ind (codes "ipca")
    then ok ipca
    else if text_eq ind (codes "cdi")
    then ok cdi
    else if text_eq ind (codes "ifix")
    then ok ifix
    else err invalid_indicator

unfoldable pub default_unit : Indicator → MeasureUnit
default_unit ifix = points
default_unit _ = bps

abbrev pub indicator_eq : Indicator → Indicator → Bool
indicator_eq selic selic = true
indicator_eq ipca ipca = true
indicator_eq cdi cdi = true
indicator_eq ifix ifix = true
indicator_eq _ _ = false

pub indicator_eq_iff : (a b : Indicator) → (indicator_eq a b ≡ true) ↔ (a ≡ b)
indicator_eq_iff a b = ground arith

instance abbrev pub indicator_key : Eq Indicator
indicator_key = record { beq = indicator_eq; beq_iff = indicator_eq_iff }
