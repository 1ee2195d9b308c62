-- ===== src/Authz/Meaning.antt =====
-- The rules of `buildMcpAuthorizationRules` authorize exactly the tools that the filter allows.
use tool_gateway_agentgatewa.Prelude.{
  ◌≡◌, ◌≤◌, refl, sym, ap, ◌∙◌, Bool, true, false, not, ◌&&◌, ◌||◌, List, [], ◌∷◌, ◌++◌, Option,
  none, some, arith, length, length-append, ◌==◌, inl, inr, Bool-cases, any,
}
use tool_gateway_agentgatewa.Prelude.Text.{Text, codes, text_eq}
use tool_gateway_agentgatewa.Authz.Glob.{has_glob_meta}
use tool_gateway_agentgatewa.Authz.Regex.{newline}
use tool_gateway_agentgatewa.Authz.Reading.{
  read_regex-glob_to_regex, glob_matches, Lacks, matches-glob_items,
}
use tool_gateway_agentgatewa.Authz.Rules.{ToolFilter, build_mcp_authorization_rules}
use tool_gateway_agentgatewa.Authz.Cel.{
  Expr, either, both, negate, read_rule, eval, some_rule, permits,
}
use tool_gateway_agentgatewa.Authz.Shapes.{
  joined, length-joined, read_rule-eight, length-both, read-allow, read-deny, read-both,
  build-allow, build-deny, build-both, filter_of,
}
use tool_gateway_agentgatewa.Authz.Parsing.{pattern_expr, joined_expr, AllOneLine}

-- The filter as the API describes it: allowed if some allow pattern matches, or there is none, and
-- no deny pattern matches.
unfoldable pub allowed : Option ToolFilter → Text → Bool
allowed none name = true
allowed (some filter) name =
    (length filter.allow == 0 || any (λ p. glob_matches p name) filter.allow)
    && not (any (λ p. glob_matches p name) filter.deny)

-- A pattern with no wildcard matches itself alone.
text_eq-glob_matches :
    (p name : Text) → has_glob_meta p ≡ false → text_eq name p ≡ glob_matches p name
unfolding text_eq glob_matches has_glob_meta
text_eq-glob_matches [] [] h = refl
text_eq-glob_matches [] (d ∷ s) h = refl
text_eq-glob_matches (c ∷ p) [] h = ground arith
text_eq-glob_matches (c ∷ p) (d ∷ s) h = ground (arith, text_eq-glob_matches p s)

eval-pattern_expr :
    (p name : Text) → Lacks newline name → eval (pattern_expr p) name ≡ glob_matches p name
unfolding eval pattern_expr
eval-pattern_expr p name h = elim (Bool-cases (has_glob_meta p)) [
  | inl e ↦ rw (e, read_regex-glob_to_regex) (matches-glob_items p name h)
  | inr e ↦ rw e (text_eq-glob_matches p name e)
]

||-false : (b : Bool) → b ≡ (b || false)
||-false true = refl
||-false false = refl

eval-either : (a b : Expr) (name : Text) → eval (either a b) name ≡ (eval a name || eval b name)
unfolding eval
eval-either a b name = refl

eval-joined_expr :
    (p : Text) (ps : List Text) (name : Text)
    → Lacks newline name
    → eval (joined_expr p ps) name ≡ any (λ q. glob_matches q name) (p ∷ ps)
unfolding joined_expr
eval-joined_expr p [] name h = eval-pattern_expr p name h ∙ ||-false (glob_matches p name)
eval-joined_expr p (q ∷ ps) name h =
    rw (eval-either, eval-pattern_expr p name h, eval-joined_expr q ps name h)

permits_rule :
    (r : Text) (e : Expr) (name : Text)
    → read_rule r ≡ some e
    → permits (r ∷ []) name ≡ some (eval e name)
unfolding permits some_rule
permits_rule r e name h = rw h (ap some (sym (||-false (eval e name))))

not-eval : (e : Expr) (name : Text) → eval (negate e) name ≡ not (eval e name)
unfolding eval
not-eval e name = refl

both-eval : (a b : Expr) (name : Text) → eval (both a b) name ≡ (eval a name && eval b name)
unfolding eval
both-eval a b name = refl

abbrev pub AllPatternsOneLine : Option ToolFilter → Type 0
AllPatternsOneLine none = Unit
AllPatternsOneLine (some filter) = AllOneLine filter.allow × AllOneLine filter.deny

-- What each shape allows.
module _ (p : Text) (ps : List Text) (name : Text) where
  allowed-allow : allowed (filter_of (p ∷ ps) []) name ≡ any (λ q. glob_matches q name) (p ∷ ps)
  unfolding allowed
  allowed-allow = ground arith

  allowed-deny :
      allowed (filter_of [] (p ∷ ps)) name ≡ not (any (λ q. glob_matches q name) (p ∷ ps))
  unfolding allowed
  allowed-deny = ground arith

  allowed-both :
      (q : Text) (qs : List Text)
      → allowed (filter_of (p ∷ ps) (q ∷ qs)) name
        ≡ (any (λ q. glob_matches q name) (p ∷ ps) && not (any (λ q. glob_matches q name) (q ∷ qs)))
  unfolding allowed
  allowed-both q qs = ground arith

permits_parts :
    (allow deny : List Text) (name : Text)
    → AllOneLine allow
    → AllOneLine deny
    → Lacks newline name
    → permits (build_mcp_authorization_rules (filter_of allow deny)) name
      ≡ some (allowed (filter_of allow deny) name)
permits_parts [] [] name ha hd h = unfold permits build_mcp_authorization_rules allowed in refl
permits_parts (p ∷ ps) [] name ha hd h =
    let e = read_rule-eight (joined p ps) _ (read-allow _ p ps (length-joined p ps) ha) in
    rw (build-allow, allowed-allow)
      (permits_rule _ _ name e ∙ ap some (eval-joined_expr p ps name h))
permits_parts [] (q ∷ qs) name ha hd h =
    let room : length qs ≤ length (codes "!(" ++ (joined q qs ++ codes ")")) =
      omega (arith, length-joined q qs, length-append (joined q qs) (codes ")")) in
    let e =
      read_rule-eight (codes "!(" ++ (joined q qs ++ codes ")")) _ (read-deny _ q qs room hd) in
    rw (build-deny, allowed-deny)
      (permits_rule _ _ name e ∙ (rw (not-eval, eval-joined_expr q qs name h)))
permits_parts (p ∷ ps) (q ∷ qs) name ha hd h =
    let rule : Text =
      codes "(" ++ (joined p ps ++ (codes ") && !(" ++ (joined q qs ++ codes ")"))) in
    let (room, room') = length-both p ps q qs in
    let e = read_rule-eight rule _ (read-both _ p ps room ha q qs room' hd) in
    rw (build-both, allowed-both)
      (permits_rule rule _ name e
        ∙ (rw (both-eval, not-eval, eval-joined_expr p ps name h, eval-joined_expr q qs name h)))

-- The rules that are generated for a filter authorize, read as CEL, exactly the tools that the
-- filter allows: those that some allow pattern matches (all, if there is none) and no deny pattern
-- does; with no rule every tool passes. The patterns and the name hold no line break.
pub permits-build_mcp_authorization_rules :
    (filter : Option ToolFilter) (name : Text)
    → AllPatternsOneLine filter
    → Lacks newline name
    → permits (build_mcp_authorization_rules filter) name ≡ some (allowed filter name)
permits-build_mcp_authorization_rules none name hf h =
    unfold permits build_mcp_authorization_rules allowed in refl
permits-build_mcp_authorization_rules (some filter) name hf h =
    permits_parts filter.allow filter.deny name hf.0 hf.1 h
