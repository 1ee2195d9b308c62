-- ===== src/Authz/Parsing.antt =====
-- `celEscape`, `globToCELPredicate` and `orJoin`: what they write is read back by the CEL reader.
use tool_gateway_agentgatewa.Prelude.{
  ℕ, zero, suc, ◌≡◌, ◌≤◌, refl, false, not, List, [], ◌∷◌, ◌++◌, map, append_assoc, none, some,
  arith, length, ◌==◌, if◌then◌else◌, inl, inr, Bool-cases,
}
use tool_gateway_agentgatewa.Prelude.Text.{
  Text, codes, strip_prefix, strip_prefix-append, is_line_break, NoBreak,
}
use tool_gateway_agentgatewa.Authz.Glob.{has_glob_meta, backslash, glob_to_regex}
use tool_gateway_agentgatewa.Authz.Reading.{glob_to_regex-NoBreak}
use tool_gateway_agentgatewa.Authz.Rules.{
  replace_all, quote, cel_escape, glob_to_cel_predicate, or_join,
}
use tool_gateway_agentgatewa.Authz.Cel.{
  Expr, name_is, name_matches, either, both, negate, Read, ◌>>=◌, push_rune, read_string, or_level,
  and_level, unary_level, closed, after_or, after_and, read_atom, read_unary, read_expr,
}

-- What one rune becomes in a quoted text.
escaped_rune : ℕ → Text
escaped_rune c =
    if c == backslash
    then backslash ∷ backslash ∷ []
    else if c == quote
    then backslash ∷ quote ∷ []
    else c ∷ []

escaped : Text → Text
escaped [] = []
escaped (c ∷ s) = escaped_rune c ++ escaped s

replace_all_twice :
    (s : Text)
    → replace_all quote
        (backslash ∷ quote ∷ [])
        (replace_all backslash (backslash ∷ backslash ∷ []) s)
      ≡ escaped s
unfolding replace_all escaped escaped_rune
replace_all_twice [] = refl
replace_all_twice (c ∷ s) = ground (arith, replace_all_twice s)

cel_escape-escaped : (s rest : Text) → cel_escape s ++ rest ≡ quote ∷ (escaped s ++ quote ∷ rest)
unfolding cel_escape
cel_escape-escaped s rest = simp (replace_all_twice, append_assoc)

read_string-rune :
    (c d : ℕ) (t : Text)
    → is_line_break c ≡ false
    → read_string (escaped_rune c ++ d ∷ t) ≡ push_rune c (read_string (d ∷ t))
unfolding escaped_rune read_string
read_string-rune c d t h = ground arith

escaped_head : (s t : Text) → (d : ℕ) × (u : Text) × (escaped s ++ quote ∷ t ≡ d ∷ u)
unfolding escaped escaped_rune
escaped_head [] t = (quote, t, refl)
escaped_head (c ∷ s) t = elim (Bool-cases (c == backslash)) [
  | inl e ↦ (backslash, backslash ∷ (escaped s ++ quote ∷ t), rw e)
  | inr e ↦ elim (Bool-cases (c == quote)) [
    | inl e' ↦ (backslash, quote ∷ (escaped s ++ quote ∷ t), rw (e, e'))
    | inr e' ↦ (c, escaped s ++ quote ∷ t, rw (e, e'))
  ]
]

read_string-escaped : (s t : Text) → NoBreak s → read_string (escaped s ++ quote ∷ t) ≡ some (s, t)
unfolding escaped
read_string-escaped [] [] h = unfold read_string in refl
read_string-escaped [] (d ∷ t) h = unfold read_string in refl
read_string-escaped (c ∷ s) t h =
    let (d, u, e) = escaped_head s t in
    rw (append_assoc (escaped_rune c), e, read_string-rune c d u h.0, ← e)
      (rw (read_string-escaped s t h.1))

-- The expression that a pattern stands for.
unfoldable pub pattern_expr : Text → Expr
pattern_expr p = if not (has_glob_meta p) then name_is p else name_matches (glob_to_regex p)

read_expr-predicate :
    (f : ℕ) (p rest : Text)
    → NoBreak p
    → read_expr (suc f) unary_level (glob_to_cel_predicate p ++ rest) ≡ some (pattern_expr p, rest)
unfolding glob_to_cel_predicate pattern_expr
read_expr-predicate f p rest h = elim (Bool-cases (has_glob_meta p)) [
  | inl e ↦
      rw (e, append_assoc (cel_escape (glob_to_regex p)), cel_escape-escaped)
        (unfold read_expr read_unary read_atom strip_prefix in
          rw (read_string-escaped (glob_to_regex p) _ (glob_to_regex-NoBreak p h)))
  | inr e ↦
      rw (e, cel_escape-escaped)
        (unfold read_expr read_unary read_atom strip_prefix in rw (read_string-escaped p rest h))
]

-- What may follow a whole rule, or stands behind its closing bracket.
abbrev pub Ends : Text → Type 0
Ends t = (strip_prefix (codes " || ") t ≡ none) × (strip_prefix (codes " && ") t ≡ none)

unfoldable pub joined_expr : Text → List Text → Expr
joined_expr p [] = pattern_expr p
joined_expr p (q ∷ ps) = either (pattern_expr p) (joined_expr q ps)

abbrev pub AllOneLine : List Text → Type 0
AllOneLine [] = Unit
AllOneLine (p ∷ ps) = NoBreak p × AllOneLine ps

module _ (f : ℕ) (t : Text) where
  pub read_expr-and_level :
      read_expr (suc f) and_level t
      ≡ (read_expr f unary_level t >>= after_and (read_expr f and_level))
  unfolding read_expr
  read_expr-and_level = refl

  pub read_expr-or_level :
      read_expr (suc f) or_level t ≡ (read_expr f and_level t >>= after_or (read_expr f or_level))
  unfolding read_expr
  read_expr-or_level = refl

  pub read_expr-bracket :
      read_expr (suc f) unary_level (codes "(" ++ t) ≡ (read_expr f or_level t >>= closed)
  unfolding read_expr read_unary strip_prefix
  read_expr-bracket = refl

  pub read_expr-not :
      read_expr (suc f) unary_level (codes "!" ++ t)
      ≡ (read_expr f unary_level t >>= λ (a, u). some (negate a, u))
  unfolding read_expr read_unary strip_prefix
  read_expr-not = refl

module _ (next : Text → Read Expr) (a : Expr) (t : Text) {r : Text} where
  after_or_more :
      strip_prefix (codes " || ") t ≡ some r
      → after_or next (a, t) ≡ (next r >>= λ (b, u). some (either a b, u))
  after_or_more e = rw (e, after_or)

  pub after_and_more :
      strip_prefix (codes " && ") t ≡ some r
      → after_and next (a, t) ≡ (next r >>= λ (b, u). some (both a b, u))
  after_and_more e = rw (e, after_and)

read_expr-and :
    (f : ℕ) (p rest : Text)
    → NoBreak p
    → strip_prefix (codes " && ") rest ≡ none
    → read_expr (suc (suc f)) and_level (glob_to_cel_predicate p ++ rest)
      ≡ some (pattern_expr p, rest)
read_expr-and f p rest h e = rw (read_expr-and_level, read_expr-predicate f p rest h, e, after_and)

or_not_and : (t : Text) → strip_prefix (codes " && ") (codes " || " ++ t) ≡ none
unfolding strip_prefix
or_not_and t = refl

pub read_expr-or_join :
    (f : ℕ) (p : Text) (ps : List Text) (rest : Text)
    → length ps ≤ f
    → NoBreak p × AllOneLine ps
    → Ends rest
    → read_expr
        (suc (suc (suc f)))
        or_level
        (or_join (glob_to_cel_predicate p ∷ map glob_to_cel_predicate ps) ++ rest)
      ≡ some (joined_expr p ps, rest)
unfolding or_join joined_expr
read_expr-or_join f p [] rest hf h e =
    rw (read_expr-or_level, read_expr-and f p rest h.0 e.1, e.0, after_or)
read_expr-or_join zero p (q ∷ ps) rest hf h e = absurd (omega arith)
read_expr-or_join (suc f) p (q ∷ ps) rest hf h e = rw (
  append_assoc (glob_to_cel_predicate p),
  read_expr-or_level,
  read_expr-and (suc f) p _ h.0
      (or_not_and (or_join (glob_to_cel_predicate q ∷ map glob_to_cel_predicate ps) ++ rest)),
  after_or_more _ _ _ (
      strip_prefix-append (codes " || ")
        (or_join (glob_to_cel_predicate q ∷ map glob_to_cel_predicate ps) ++ rest)),
  read_expr-or_join f q ps rest (omega arith) h.1 e,
)

-- A bracketed disjunction, at the level of `!`.
pub read_expr-bracketed :
    (f : ℕ) (p : Text) (ps : List Text) (rest : Text)
    → length ps ≤ f
    → NoBreak p × AllOneLine ps
    → read_expr (suc (suc (suc (suc f)))) unary_level (
        codes "("
        ++ (or_join (glob_to_cel_predicate p ∷ map glob_to_cel_predicate ps)
            ++ (codes ")" ++ rest)))
      ≡ some (joined_expr p ps, rest)
read_expr-bracketed f p ps rest hf h =
    rw
      (
        read_expr-bracket,
        read_expr-or_join f p ps (codes ")" ++ rest) hf h (unfold strip_prefix in (refl, refl)),
      )
      (unfold strip_prefix in refl)
