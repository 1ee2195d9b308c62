-- ===== src/Prelude/Text.antt =====
-- Text that the program walks rune by rune: the list of its code points.
use Prim.Native.Nat.{ℕ}
use Prim.Native.Char.{code}
use Prim.Native.String
use Prim.Native.String.{String}
use mathlib.Core.Path.{◌≡◌, refl}
use mathlib.Core.Bool.{Bool, true, false, ◌&&◌, ◌||◌}
use mathlib.Core.Logic.{◌↔◌}
use mathlib.Core.List.{List, [], ◌∷◌, ◌++◌}
use mathlib.Core.Option.{Option, none, some}
use native.Mathlib.Omega.{arith}
use tool_gateway_agentgatewa.Prelude.Tests.{◌==◌, if◌then◌else◌}

abbrev pub Text : Type 0
Text = List ℕ

abbrev pub codes : String → Text
codes String.[] = []
codes (String.◌∷◌ c s) = code c ∷ codes s

-- `s == t` on such text.
unfoldable pub text_eq : Text → Text → Bool
text_eq [] [] = true
text_eq [] (d ∷ t) = false
text_eq (c ∷ s) [] = false
text_eq (c ∷ s) (d ∷ t) = c == d && text_eq s t

pub text_eq_iff : (s t : Text) → (text_eq s t ≡ true) ↔ (s ≡ t)
unfolding text_eq
text_eq_iff [] [] = (λ _. refl, λ _. refl)
text_eq_iff [] (d ∷ t) = (λ e. cc, λ e. cc)
text_eq_iff (c ∷ s) [] = (λ e. cc, λ e. cc)
text_eq_iff (c ∷ s) (d ∷ t) = ground (arith, text_eq_iff s t)

-- The text behind a prefix.
unfoldable pub strip_prefix : Text → Text → Option Text
strip_prefix [] t = some t
strip_prefix (c ∷ p) [] = none
strip_prefix (c ∷ p) (d ∷ t) = if c == d then strip_prefix p t else none

-- A line feed or a carriage return.
abbrev pub is_line_break : ℕ → Bool
is_line_break c = c == 10 || c == 13

abbrev pub NoBreak : Text → Type 0
NoBreak [] = Unit
NoBreak (c ∷ s) = (is_line_break c ≡ false) × NoBreak s

pub NoBreak-append : (s t : Text) → NoBreak s → NoBreak t → NoBreak (s ++ t)
NoBreak-append [] t hs ht = ht
NoBreak-append (c ∷ s) t hs ht = (hs.0, NoBreak-append s t hs.1 ht)

pub strip_prefix-append : (p t : Text) → strip_prefix p (p ++ t) ≡ some t
unfolding strip_prefix
strip_prefix-append [] t = refl
strip_prefix-append (c ∷ p) t = ground (arith, strip_prefix-append p t)

-- `fmt.Sprintf` with `%s` only, and `+` on strings: the parts in a row.
abbrev pub concat : List String → String
concat [] = ""
concat (s ∷ []) = s
concat (s ∷ t ∷ ss) = String.◌++◌ s (concat (t ∷ ss))
