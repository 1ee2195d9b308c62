-- ===== src/Authz/Cel.antt =====
-- What an authorization rule means, with no reference to how it is generated: a reader for the
-- part of the CEL syntax that the rules use, by recursive descent, and its evaluation at a name.
use tool_gateway_agentgatewa.Prelude.{
  ℕ, zero, suc, Bool, true, false, not, ◌&&◌, ◌||◌, ◌+◌, List, [], ◌∷◌, Option, none, some, length,
  ◌==◌, if◌then◌else◌,
}
use tool_gateway_agentgatewa.Prelude.Text.{Text, codes, text_eq, strip_prefix, is_line_break}
use tool_gateway_agentgatewa.Authz.Glob.{backslash}
use tool_gateway_agentgatewa.Authz.Regex.{Item, read_regex, matches}

pub data Expr : Type 0 where
  name_is : Text → Expr
  name_matches : Text → Expr
  either : Expr → Expr → Expr
  both : Expr → Expr → Expr
  negate : Expr → Expr

abbrev pub Read : Type 0 → Type 0
Read A = Option (A × Text)

infixl 5 ◌>>=◌
abbrev pub ◌>>=◌ : {A B : Type 0} → Option A → (A → Option B) → Option B
none >>= f = none
some a >>= f = f a

abbrev pub push_rune : ℕ → Read Text → Read Text
push_rune c none = none
push_rune c (some (s, t)) = some (c ∷ s, t)

-- A quoted text behind its first quote. It holds no line break, and of the escapes only `\\` and `\"` are read.
unfoldable pub read_string : Text → Read Text
read_string [] = none
read_string (c ∷ []) = if c == b'"' then some ([], []) else none
read_string (c ∷ d ∷ t) =
    let escaped = push_rune d (read_string t) in
    let plain = push_rune c (read_string (d ∷ t)) in
    if c == b'"'
    then some ([], d ∷ t)
    else if c == backslash
    then if d == backslash || d == b'"' then escaped else none
    else if is_line_break c
    then none
    else plain

pub data Level : Type 0 where
  or_level and_level unary_level : Level

abbrev pub closed : Expr × Text → Read Expr
closed (e, t) = strip_prefix (codes ")") t >>= λ r. some (e, r)

abbrev pub after_or : (Text → Read Expr) → Expr × Text → Read Expr
after_or next (a, t) = elim (strip_prefix (codes " || ") t) [
  | none ↦ some (a, t)
  | some r ↦ next r >>= λ (b, u). some (either a b, u)
]

abbrev pub after_and : (Text → Read Expr) → Expr × Text → Read Expr
after_and next (a, t) = elim (strip_prefix (codes " && ") t) [
  | none ↦ some (a, t)
  | some r ↦ next r >>= λ (b, u). some (both a b, u)
]

unfoldable pub read_atom : Text → Read Expr
read_atom t = elim (strip_prefix (codes "mcp.tool.name == \"") t) [
  | some r ↦ read_string r >>= λ (s, u). some (name_is s, u)
  | none ↦ elim (strip_prefix (codes "mcp.tool.name.matches(\"") t) [
    | some r ↦ read_string r >>= λ (s, u). closed (name_matches s, u)
    | none ↦ none
  ]
]

unfoldable pub read_unary : (Level → Text → Read Expr) → Text → Read Expr
read_unary next t = elim (strip_prefix (codes "!") t) [
  | some r ↦ next unary_level r >>= λ (a, u). some (negate a, u)
  | none ↦ elim (strip_prefix (codes "(") t) [
    | some r ↦ next or_level r >>= closed
    | none ↦ read_atom t
  ]
]

-- `||` binds looser than `&&`, and `!` tightest. The number bounds the depth of the calls.
unfoldable pub read_expr : ℕ → Level → Text → Read Expr
read_expr zero l t = none
read_expr (suc f) or_level t = read_expr f and_level t >>= after_or (read_expr f or_level)
read_expr (suc f) and_level t = read_expr f unary_level t >>= after_and (read_expr f and_level)
read_expr (suc f) unary_level t = read_unary (read_expr f) t

abbrev pub ended : Expr × Text → Option Expr
ended (e, []) = some e
ended (e, c ∷ t) = none

unfoldable pub read_rule : Text → Option Expr
read_rule t = read_expr (length t + 8) or_level t >>= ended

abbrev pub regex_result : Text → Option (List Item) → Bool
regex_result name none = false
regex_result name (some is) = matches is name

unfoldable pub eval : Expr → Text → Bool
eval (name_is t) name = text_eq name t
eval (name_matches r) name = regex_result name (read_regex r)
eval (either a b) name = eval a name || eval b name
eval (both a b) name = eval a name && eval b name
eval (negate a) name = not (eval a name)

-- A name is authorized if a rule holds of it. `none`: a rule could not be read.
unfoldable pub some_rule : List Text → Text → Option Bool
some_rule [] name = some false
some_rule (r ∷ rs) name = do e ← read_rule r; later ← some_rule rs name; some (eval e name || later)

-- With no rule there is no policy, and every tool passes.
unfoldable pub permits : List Text → Text → Option Bool
permits [] name = some true
permits (r ∷ rs) name = some_rule (r ∷ rs) name
