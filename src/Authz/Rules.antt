-- ===== src/Authz/Rules.antt =====
-- internal/controller/toolroute_authz.go: `celEscape`, `globToCELPredicate`, `orJoin` and
-- `buildMcpAuthorizationRules`.
use tool_gateway_agentgatewa.Prelude.{
  ℕ, not, ◌&&◌, List, [], ◌∷◌, ◌++◌, map, Option, none, some, length, ltb, ◌==◌, if◌then◌else◌,
}
use tool_gateway_agentgatewa.Prelude.Text.{Text, codes}
use tool_gateway_agentgatewa.Authz.Glob.{has_glob_meta, backslash, glob_to_regex}

-- `ToolFilter` of the API: glob patterns of the tools to allow and to deny.
pub record ToolFilter : Type 0 where
  pub allow : List Text
  pub deny : List Text

-- `strings.ReplaceAll(s, old, new)` where `old` is one character.
unfoldable pub replace_all : ℕ → Text → Text → Text
replace_all old new [] = []
replace_all old new (c ∷ s) =
    let rest = replace_all old new s in if c == old then new ++ rest else c ∷ rest

abbrev pub quote : ℕ
quote = b'"'

unfoldable pub cel_escape : Text → Text
cel_escape s =
    let slashes = replace_all backslash (backslash ∷ backslash ∷ []) s in
    let quotes = replace_all quote (backslash ∷ quote ∷ []) slashes in
    quote ∷ (quotes ++ quote ∷ [])

unfoldable pub glob_to_cel_predicate : Text → Text
glob_to_cel_predicate pattern =
    if not (has_glob_meta pattern)
    then codes "mcp.tool.name == " ++ cel_escape pattern
    else codes "mcp.tool.name.matches(" ++ (cel_escape (glob_to_regex pattern) ++ codes ")")

-- `strings.Join(preds, " || ")`
unfoldable pub or_join : List Text → Text
or_join [] = []
or_join (p ∷ []) = p
or_join (p ∷ q ∷ ps) = p ++ (codes " || " ++ or_join (q ∷ ps))

-- The `switch`, over the two lists of predicates.
unfoldable pub combine_rules : List Text → List Text → List Text
combine_rules allow_preds deny_preds =
    if ltb 0 (length allow_preds) && ltb 0 (length deny_preds)
    then (codes "("
        ++ (or_join allow_preds ++ (codes ") && !(" ++ (or_join deny_preds ++ codes ")"))))
      ∷ []
    else if ltb 0 (length allow_preds)
    then or_join allow_preds ∷ []
    else if ltb 0 (length deny_preds)
    then (codes "!(" ++ (or_join deny_preds ++ codes ")")) ∷ []
    else []

-- Go's `nil` slice is the empty list: the caller only takes its length.
unfoldable pub build_mcp_authorization_rules : Option ToolFilter → List Text
build_mcp_authorization_rules none = []
build_mcp_authorization_rules (some filter) =
    if (length filter.allow == 0) && (length filter.deny == 0)
    then []
    else combine_rules (map glob_to_cel_predicate filter.allow)
        (map glob_to_cel_predicate filter.deny)
