-- ===== src/Otel/Headers.antt =====
-- internal/controller/otel.go: `parseHeaders`. `json.Unmarshal` into a map is a parameter.
use Prim.Native.Char.{Char, code}
use tool_gateway_agentgatewa.Prelude.{
  ℕ, String, Bool, ◌||◌, ◌&&◌, List, [], ◌∷◌, Option, none, some, str_eq, ◌==◌, leb, if◌then◌else◌,
}

-- A text as its runes, and back.
abbrev pub Runes : Type 0
Runes = List Char

unfoldable pub runes : String → Runes
runes String.[] = []
runes (String.◌∷◌ c s) = c ∷ runes s

unfoldable pub of_runes : Runes → String
of_runes [] = ""
of_runes (c ∷ s) = String.◌∷◌ c (of_runes s)

-- `unicode.IsSpace`
unfoldable pub is_space : ℕ → Bool
is_space c =
    (leb 9 c && leb c 13)
    || c == 32
    || c == 0x85
    || c == 0xA0
    || c == 0x1680
    || (leb 0x2000 c && leb c 0x200A)
    || c == 0x2028
    || c == 0x2029
    || c == 0x202F
    || c == 0x205F
    || c == 0x3000

unfoldable pub trim_left : Runes → Runes
trim_left [] = []
trim_left (c ∷ s) = if is_space (code c) then trim_left s else c ∷ s

-- A space is dropped at the end if nothing but spaces follows it.
unfoldable pub keep_rune : Char → Runes → Runes
keep_rune c [] = if is_space (code c) then [] else c ∷ []
keep_rune c (d ∷ t) = c ∷ d ∷ t

unfoldable pub trim_right : Runes → Runes
trim_right [] = []
trim_right (c ∷ s) = keep_rune c (trim_right s)

-- `strings.TrimSpace`
unfoldable pub trim_space : Runes → Runes
trim_space s = trim_right (trim_left s)

-- `strings.Split(s, sep)` for one character: the part up to the separator, and the other parts.
abbrev pub begin_part : Char → List Runes → List Runes
begin_part c [] = (c ∷ []) ∷ []
begin_part c (p ∷ ps) = (c ∷ p) ∷ ps

unfoldable pub split : ℕ → Runes → List Runes
split sep [] = [] ∷ []
split sep (c ∷ s) = let rest = split sep s in if code c == sep then [] ∷ rest else begin_part c rest

abbrev pub longer_key : Char → Option (Runes × Runes) → Option (Runes × Runes)
longer_key c none = none
longer_key c (some (k, v)) = some (c ∷ k, v)

-- `strings.SplitN(s, "=", 2)`: `none` unless there are two parts.
unfoldable pub split_pair : Runes → Option (Runes × Runes)
split_pair [] = none
split_pair (c ∷ s) =
    let rest = split_pair s in if code c == b'=' then some ([], s) else longer_key c rest

-- `m[k] = v`, and `m[k]`
abbrev pub HeaderMap : Type 0
HeaderMap = List (String × String)

unfoldable pub set_header : String → String → HeaderMap → HeaderMap
set_header k v [] = (k, v) ∷ []
set_header k v ((j, w) ∷ m) = if str_eq j k then (j, v) ∷ m else (j, w) ∷ set_header k v m

unfoldable pub add_pair : Option (Runes × Runes) → HeaderMap → HeaderMap
add_pair none m = m
add_pair (some (k, v)) m = set_header (of_runes (trim_space k)) (of_runes (trim_space v)) m

unfoldable pub parse_pairs : List Runes → HeaderMap → HeaderMap
parse_pairs [] m = m
parse_pairs (pair ∷ rest) m = parse_pairs rest (add_pair (split_pair (trim_space pair)) m)

-- `none` from the parameter is an error of `json.Unmarshal`.
unfoldable pub parse_headers : (String → Option HeaderMap) → String → HeaderMap
parse_headers unmarshal headers = elim (unmarshal headers) [
  | some m ↦ m
  | none ↦ parse_pairs (split b',' (runes headers)) []
]
