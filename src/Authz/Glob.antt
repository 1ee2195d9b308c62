-- ===== src/Authz/Glob.antt =====
-- internal/controller/toolroute_authz.go: `hasGlobMeta` and `globToRegex`.
use tool_gateway_agentgatewa.Prelude.{
  ℕ, Bool, false, ◌||◌, [], ◌∷◌, ◌++◌, ltb, length, ◌==◌, if◌then◌else◌,
}
use tool_gateway_agentgatewa.Prelude.Text.{Text, codes}

-- `strings.ContainsAny(p, "*?")`
unfoldable pub has_glob_meta : Text → Bool
has_glob_meta [] = false
has_glob_meta (c ∷ p) = c == b'*' || c == b'?' || has_glob_meta p

abbrev pub backslash : ℕ
backslash = b'\\'

-- The characters that `regexp.QuoteMeta` escapes: \.+*?()|[]{}^$
unfoldable pub is_regex_meta : ℕ → Bool
is_regex_meta c =
    c == backslash
    || c == b'.'
    || c == b'+'
    || c == b'*'
    || c == b'?'
    || c == b'('
    || c == b')'
    || c == b'|'
    || c == b'['
    || c == b']'
    || c == b'{'
    || c == b'}'
    || c == b'^'
    || c == b'$'

unfoldable pub quote_meta : Text → Text
quote_meta [] = []
quote_meta (c ∷ s) = if is_regex_meta c then backslash ∷ c ∷ quote_meta s else c ∷ quote_meta s

-- The two builders `b` and `literal`.
pub record Builders : Type 0 where
  pub b : Text
  pub literal : Text

unfoldable pub flush_literal : Builders → Builders
flush_literal w =
    if ltb 0 (length w.literal) then record { b = w.b ++ quote_meta w.literal; literal = [] } else w

unfoldable pub write_string : Builders → Text → Builders
write_string w s = record w { b = w.b ++ s }

-- One round of the loop over the runes.
unfoldable pub glob_rune : Builders → ℕ → Builders
glob_rune w r =
    if r == b'*'
    then write_string (flush_literal w) (codes ".*")
    else if r == b'?'
    then write_string (flush_literal w) (codes ".")
    else record w { literal = w.literal ++ r ∷ [] }

unfoldable pub glob_runes : Builders → Text → Builders
glob_runes w [] = w
glob_runes w (r ∷ glob) = glob_runes (glob_rune w r) glob

unfoldable pub glob_to_regex : Text → Text
glob_to_regex glob =
    (write_string (flush_literal (glob_runes (record { b = codes "^"; literal = [] }) glob))
      (codes "$")).b
