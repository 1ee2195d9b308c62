-- ===== src/Route/Numbers.antt =====
-- `strconv.Atoi` on a 64-bit platform, and the decimal digits that `%d` prints. A text that is both
-- too long and no number is a syntax error here; the ports of a parsed URL are digits only.
use Prim.Native.Nat.{◌/◌, ◌%◌}
use tool_gateway_agentgatewa.Prelude.{
  ℕ, zero, suc, ◌+◌, ◌-◌, ◌*◌, ◌^◌, String, Bool, ◌&&◌, [], ◌∷◌, Option, none, some, leb, ltb, ◌==◌,
  if◌then◌else◌,
}
use tool_gateway_agentgatewa.Prelude.Text.{Text, codes, concat}
use tool_gateway_agentgatewa.Kube.Errors.{failure, Result, ok, err}

-- `negsuc n` is -(n + 1).
pub data ℤ : Type 0 where
  pos : ℕ → ℤ
  negsuc : ℕ → ℤ

abbrev pub is_digit : ℕ → Bool
is_digit c = leb b'0' c && leb c b'9'

-- The value of decimal digits behind the value read so far; `none` at any other character.
unfoldable pub digits_value : ℕ → Text → Option ℕ
digits_value n [] = some n
digits_value n (c ∷ s) = if is_digit c then digits_value (n * 10 + (c - b'0')) s else none

-- At least one digit.
unfoldable pub unsigned_value : Text → Option ℕ
unfolding digits_value
unsigned_value [] = none
unsigned_value (c ∷ s) = digits_value 0 (c ∷ s)

abbrev pub syntax_error : String → Result ℤ
syntax_error s = err (failure (concat ("strconv.Atoi: parsing \"" ∷ s ∷ "\": invalid syntax" ∷ [])))

abbrev pub range_error : String → Result ℤ
range_error s =
    err (failure (concat ("strconv.Atoi: parsing \"" ∷ s ∷ "\": value out of range" ∷ [])))

abbrev pub negated : ℕ → ℤ
negated zero = pos zero
negated (suc n) = negsuc n

abbrev pub in_range : String → Bool → Option ℕ → Result ℤ
in_range s negative none = syntax_error s
in_range s Bool.false (some n) = if ltb n (2 ^ 63) then ok (pos n) else range_error s
in_range s Bool.true (some n) = if leb n (2 ^ 63) then ok (negated n) else range_error s

unfoldable pub atoi_text : String → Text → Result ℤ
unfolding unsigned_value
atoi_text s [] = syntax_error s
atoi_text s (c ∷ t) =
    if c == b'-'
    then in_range s Bool.true (unsigned_value t)
    else if c == b'+'
    then in_range s Bool.false (unsigned_value t)
    else in_range s Bool.false (unsigned_value (c ∷ t))

unfoldable pub atoi : String → Result ℤ
atoi s = atoi_text s (codes s)

abbrev pub digit : ℕ → String
digit zero = "0"
digit (suc zero) = "1"
digit (suc (suc zero)) = "2"
digit (suc (suc (suc zero))) = "3"
digit (suc (suc (suc (suc zero)))) = "4"
digit (suc (suc (suc (suc (suc zero))))) = "5"
digit (suc (suc (suc (suc (suc (suc zero)))))) = "6"
digit (suc (suc (suc (suc (suc (suc (suc zero))))))) = "7"
digit (suc (suc (suc (suc (suc (suc (suc (suc zero)))))))) = "8"
digit _ = "9"

-- The fuel is the number itself and one more: each round divides by ten.
unfoldable pub decimal_loop : ℕ → ℕ → String → String
decimal_loop zero n rest = rest
decimal_loop (suc f) n rest =
    let shown = concat (digit (n % 10) ∷ rest ∷ []) in
    let more = decimal_loop f (n / 10) shown in if n / 10 == 0 then shown else more

unfoldable pub decimal : ℤ → String
unfolding decimal_loop
decimal (pos n) = decimal_loop (n + 1) n ""
decimal (negsuc n) = concat ("-" ∷ decimal_loop (n + 2) (n + 1) "" ∷ [])
