-- ===== src/Text.antt =====
-- The texts that sort keys are made of: `str` of a decimal, and the order of texts by code points.
use Prim.Native.Char.{code}
use capital_os.Base.{
  ℕ, zero, suc, ◌+◌, ◌-◌, ◌/◌, ◌%◌, String, Bool, true, false, List, [], ◌∷◌, ◌++◌, ltb, leb, ◌==◌,
  if◌then◌else◌, length,
}
use capital_os.Int.{ℤ, pos, negsuc, abs}
use capital_os.Money.{Decimal}

-- A text as its code points.
abbrev pub Text : Type 0
Text = List ℕ

unfoldable pub codes : String → Text
codes String.[] = []
codes (String.◌∷◌ c s) = code c ∷ codes s

-- `a <= b` on texts
unfoldable pub text_leb : Text → Text → Bool
text_leb [] ys = true
text_leb (x ∷ xs) [] = false
text_leb (x ∷ xs) (y ∷ ys) =
    let rest = text_leb xs ys in if ltb x y then true else if x == y then rest else false

unfoldable pub text_eq : Text → Text → Bool
text_eq [] [] = true
text_eq [] (y ∷ ys) = false
text_eq (x ∷ xs) [] = false
text_eq (x ∷ xs) (y ∷ ys) = let rest = text_eq xs ys in if x == y then rest else false

-- the decimal digits of a number before `rest`
digits_before : ℕ → ℕ → Text → Text
digits_before zero n rest = rest
digits_before (suc fuel) n rest =
    let more = digits_before fuel (n / 10) ((48 + n % 10) ∷ rest) in
    if ltb n 10 then (48 + n) ∷ rest else more

-- `str(n)`; a number has no more digits than its value plus one.
unfoldable pub digits : ℕ → Text
unfolding digits_before
digits n = digits_before (suc n) n []

zeros : ℕ → Text → Text
zeros zero rest = rest
zeros (suc n) rest = 48 ∷ zeros n rest

-- `xs` with a point before its last `n` characters, of which there are more than `n`
point_before : ℕ → ℕ → Text → Text
point_before n len [] = []
point_before n len (x ∷ xs) = if len == n then b'.' ∷ x ∷ xs else x ∷ point_before n (len - 1) xs

abbrev sign_text : ℤ → Text → Text
sign_text (pos _) t = t
sign_text (negsuc _) t = b'-' ∷ t

-- the digits with a point before the first, where more than one digit stands
scientific : Text → Text
scientific [] = []
scientific (x ∷ []) = x ∷ []
scientific (x ∷ y ∷ xs) = x ∷ b'.' ∷ y ∷ xs

-- `str(Decimal)`: the plain notation, or the scientific one for a value with six zeros or more
-- behind the point.
unfoldable pub decimal_text : Decimal → Text
unfolding digits zeros point_before scientific
decimal_text v =
    let ds = digits (abs v.coef) in
    let len = length ds in
    sign_text v.coef (
      if v.places == 0
      then ds
      else if leb v.places (len + 5)
      then (if ltb v.places len
          then point_before v.places len ds
          else 48 ∷ b'.' ∷ zeros (v.places - len) ds)
      else scientific ds ++ b'E' ∷ b'-' ∷ digits (v.places - len + 1))

-- `str(normalize_amount(...))` of an amount in ten-thousandths
unfoldable pub amount_text : ℤ → Text
unfolding decimal_text
amount_text z = decimal_text (record { coef = z; places = 4 })
