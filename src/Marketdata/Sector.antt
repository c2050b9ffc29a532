-- ===== src/Marketdata/Sector.antt =====
-- internal/marketdata/sector.go.
use yield_forge.Base.{
  ℕ, ◌≡◌, ◌↔◌, Bool, true, false, ◌&&◌, ◌||◌, List, [], ◌∷◌, ◌==◌, if◌then◌else◌, arith,
}
use yield_forge.Base.Text.{Text, Unicode, codes, trim_space, to_lower}
use yield_forge.Base.Dict.{Eq}

pub data Sector : Type 0 where
  logistics offices shopping hybrid paper other : Sector

-- `strings.HasPrefix`, with the prefix first.
abbrev is_prefix : Text → Text → Bool
is_prefix [] s = true
is_prefix (c ∷ p) [] = false
is_prefix (c ∷ p) (d ∷ s) = (c == d) && is_prefix p s

-- `strings.Contains`, with the needle first.
unfoldable pub contains : Text → Text → Bool
contains p [] = is_prefix p []
contains p (c ∷ s) = is_prefix p (c ∷ s) || contains p s

abbrev pub sector_keywords : List (Text × Sector)
sector_keywords =
    (codes "logist", logistics)
    ∷ (codes "laje", offices)
    ∷ (codes "corporativ", offices)
    ∷ (codes "escrit", offices)
    ∷ (codes "office", offices)
    ∷ (codes "shopping", shopping)
    ∷ (codes "varejo", shopping)
    ∷ (codes "hibrid", hybrid)
    ∷ (codes "hybrid", hybrid)
    ∷ (codes "papel", paper)
    ∷ (codes "receb", paper)
    ∷ (codes "titulo", paper)
    ∷ (codes "cri", paper)
    ∷ (codes "paper", paper)
    ∷ []

-- `accentReplacer`: á à ã â, é ê, í, ó ô õ, ú, ç.
abbrev pub fold_accent : ℕ → ℕ
fold_accent c =
    if c == 0xe1 || c == 0xe0 || c == 0xe3 || c == 0xe2
    then b'a'
    else if c == 0xe9 || c == 0xea
    then b'e'
    else if c == 0xed
    then b'i'
    else if c == 0xf3 || c == 0xf4 || c == 0xf5
    then b'o'
    else if c == 0xfa
    then b'u'
    else if c == 0xe7
    then b'c'
    else c

abbrev pub fold_accents : Text → Text
fold_accents [] = []
fold_accents (c ∷ s) = fold_accent c ∷ fold_accents s

unfoldable pub find_sector : Text → List (Text × Sector) → Sector
find_sector s [] = other
find_sector s ((needle, sector) ∷ ks) = if contains needle s then sector else find_sector s ks

unfoldable pub parse_sector : Unicode → Text → Sector
parse_sector u raw = find_sector (fold_accents (to_lower u (trim_space raw))) sector_keywords

abbrev pub sector_eq : Sector → Sector → Bool
sector_eq logistics logistics = true
sector_eq offices offices = true
sector_eq shopping shopping = true
sector_eq hybrid hybrid = true
sector_eq paper paper = true
sector_eq other other = true
sector_eq _ _ = false

pub sector_eq_iff : (a b : Sector) → (sector_eq a b ≡ true) ↔ (a ≡ b)
sector_eq_iff a b = ground arith

instance abbrev pub sector_key : Eq Sector
sector_key = record { beq = sector_eq; beq_iff = sector_eq_iff }
