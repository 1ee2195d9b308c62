-- ===== src/Tests/Authz.antt =====
-- The authorization rules on concrete patterns.
use tool_gateway_agentgatewa.Prelude.{◌≡◌, refl, true, [], ◌∷◌, none, some, arith}
use tool_gateway_agentgatewa.Prelude.Text.{codes, strip_prefix}
use tool_gateway_agentgatewa.Authz.Glob.{
  has_glob_meta, glob_to_regex, glob_runes, glob_rune, flush_literal, write_string, quote_meta,
  is_regex_meta,
}
use tool_gateway_agentgatewa.Authz.Regex.{lit, any_run, read_regex, matches}
use tool_gateway_agentgatewa.Authz.Reading.{read_regex-glob_to_regex, glob_items}
use tool_gateway_agentgatewa.Authz.Rules.{
  ToolFilter, replace_all, cel_escape, glob_to_cel_predicate, or_join, combine_rules,
  build_mcp_authorization_rules,
}
use tool_gateway_agentgatewa.Authz.Cel.{
  both, negate, name_is, name_matches, read_string, read_atom, read_unary, read_expr, read_rule,
  permits,
}
use tool_gateway_agentgatewa.Authz.Meaning.{allowed, permits-build_mcp_authorization_rules}

a_dot_b : glob_to_regex (codes "a.b*") ≡ codes "^a\\.b.*$"
unfolding glob_to_regex glob_runes glob_rune flush_literal write_string quote_meta is_regex_meta
a_dot_b = refl

dotted : read_regex (codes "^a\\.b.*$") ≡ some (lit b'a' ∷ lit b'.' ∷ lit b'b' ∷ any_run ∷ [])
unfolding read_regex is_regex_meta
dotted = refl

unquoted : read_regex (codes "^a+$") ≡ none
unfolding read_regex is_regex_meta
unquoted = refl

run_of_runes : matches (lit b'a' ∷ any_run ∷ lit b'c' ∷ []) (codes "abcbc") ≡ true
unfolding matches
run_of_runes = refl

allow_and_deny :
    build_mcp_authorization_rules
      (some (record { allow = codes "get_*" ∷ []; deny = codes "force_push" ∷ [] }))
    ≡ codes "(mcp.tool.name.matches(\"^get_.*$\")) && !(mcp.tool.name == \"force_push\")" ∷ []
unfolding build_mcp_authorization_rules combine_rules or_join glob_to_cel_predicate cel_escape
    replace_all glob_to_regex glob_runes glob_rune flush_literal write_string quote_meta
    is_regex_meta has_glob_meta
allow_and_deny = refl

three_levels :
    read_rule (codes "(mcp.tool.name.matches(\"^a.*$\")) && !(mcp.tool.name == \"b\")")
    ≡ some (both (name_matches (codes "^a.*$")) (negate (name_is (codes "b"))))
unfolding read_rule read_expr read_unary read_atom read_string strip_prefix
three_levels = refl

abbrev a_but_one : ToolFilter
a_but_one = record { allow = codes "a*" ∷ []; deny = codes "a.b" ∷ [] }

permits-build_mcp_authorization_rules_example :
    permits (build_mcp_authorization_rules (some a_but_one)) (codes "axb")
    ≡ some (allowed (some a_but_one) (codes "axb"))
permits-build_mcp_authorization_rules_example =
    permits-build_mcp_authorization_rules (some a_but_one) (codes "axb")
      (((refl, (refl, tt)), tt), ((refl, (refl, (refl, tt))), tt))
      ((λ e. omega (arith, e)), ((λ e. omega (arith, e)), ((λ e. omega (arith, e)), tt)))

read_regex-glob_to_regex_example :
    read_regex (glob_to_regex (codes "a.b*")) ≡ some (glob_items (codes "a.b*"))
read_regex-glob_to_regex_example = read_regex-glob_to_regex (codes "a.b*")
