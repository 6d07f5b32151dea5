-- ===== src/Shared/Texts.antt =====
-- Texts as lists of their bytes.
use Prim.Native.Char.{code}
use Prim.Native.String.{String}
use Prim.Native.Nat.{ℕ, ◌+◌, ◌-◌, ◌*◌, ◌/◌, ◌%◌}
use mathlib.Core.Path.{◌≡◌, refl}
use mathlib.Core.Bool.{Bool, true, false, ◌&&◌}
use mathlib.Core.Option.{Option, none, some}
use mathlib.Core.List.{List, [], ◌∷◌}
use native.Mathlib.Omega.{arith}
use yawc.Shared.Tests.{◌==◌, leb, ltb, if◌then◌else◌}

-- The bytes of an ASCII text.
abbrev pub codes : String → List ℕ
codes String.[] = []
codes (String.◌∷◌ c s) = code c ∷ codes s

abbrev pub same_text : List ℕ → List ℕ → Bool
same_text [] [] = true
same_text (a ∷ xs) (b ∷ ys) = (a == b) && same_text xs ys
same_text _ _ = false

pub same_text_refl : (xs : List ℕ) → same_text xs xs ≡ true
same_text_refl [] = refl
same_text_refl (x ∷ xs) = ground (arith, same_text_refl xs)

pub same_text→≡ : (xs ys : List ℕ) → same_text xs ys ≡ true → xs ≡ ys
same_text→≡ [] [] h = refl
same_text→≡ [] (y ∷ ys) h = absurd (ground arith)
same_text→≡ (x ∷ xs) [] h = absurd (ground arith)
same_text→≡ (x ∷ xs) (y ∷ ys) h = ground (arith, same_text→≡ xs ys)

abbrev pub is_digit : ℕ → Bool
is_digit c = leb b'0' c && leb c b'9'

-- `to_string` of a `u8`.
abbrev pub decimal : ℕ → List ℕ
decimal n =
    if ltb n 10
    then (b'0' + n) ∷ []
    else if ltb n 100
    then (b'0' + n / 10) ∷ (b'0' + n % 10) ∷ []
    else (b'0' + n / 100) ∷ (b'0' + n / 10 % 10) ∷ (b'0' + n % 10) ∷ []

-- The digits of a `u8`, most significant first: an overflow is an error.
abbrev pub digits_u8 : ℕ → List ℕ → Option ℕ
digits_u8 acc [] = some acc
digits_u8 acc (c ∷ cs) = elim (is_digit c && leb (acc * 10 + (c - b'0')) 255) [
  | true ↦ digits_u8 (acc * 10 + (c - b'0')) cs
  | false ↦ none
]

-- `str::parse::<u8>`: digits, behind a `+` that may stand before them.
abbrev pub parse_u8 : List ℕ → Option ℕ
parse_u8 [] = none
parse_u8 (c ∷ []) = digits_u8 0 (c ∷ [])
parse_u8 (c ∷ d ∷ cs) = if c == b'+' then digits_u8 0 (d ∷ cs) else digits_u8 0 (c ∷ d ∷ cs)
