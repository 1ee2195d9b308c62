-- ===== src/Authz/Shapes.antt =====
-- The three shapes of rule of `buildMcpAuthorizationRules`, and what each is read as.
use tool_gateway_agentgatewa.Prelude.{
  ℕ, suc, ◌≡◌, ◌≤◌, ◌+◌, refl, List, [], ◌∷◌, ◌++◌, map, append-nil, Option, some, arith, length,
  length-append,
}
use tool_gateway_agentgatewa.Prelude.Text.{Text, codes, strip_prefix, strip_prefix-append, NoBreak}
use tool_gateway_agentgatewa.Authz.Rules.{
  ToolFilter, glob_to_cel_predicate, or_join, combine_rules, build_mcp_authorization_rules,
}
use tool_gateway_agentgatewa.Authz.Cel.{
  Expr, Read, after_and, after_or, both, negate, ◌>>=◌, or_level, and_level, unary_level, read_expr,
  read_rule,
}
use tool_gateway_agentgatewa.Authz.Parsing.{
  joined_expr, AllOneLine, read_expr-or_join, read_expr-bracketed, read_expr-not, after_and_more,
  read_expr-and_level, read_expr-or_level,
}

abbrev pub joined : Text → List Text → Text
joined p ps = or_join (glob_to_cel_predicate p ∷ map glob_to_cel_predicate ps)

pub length-joined : (p : Text) (ps : List Text) → length ps ≤ length (joined p ps)
unfolding or_join
length-joined p [] = omega arith
length-joined p (q ∷ ps) = omega (
  arith,
  length-joined q ps,
  length-append (glob_to_cel_predicate p) (codes " || " ++ joined q ps),
)

abbrev pub eight : ℕ → ℕ
eight k = suc (suc (suc (suc (suc (suc (suc (suc k)))))))

after_ends :
    (next next' : Text → Read Expr) (a : Expr)
    → (after_and next (a, []) >>= after_or next') ≡ some (a, [])
unfolding strip_prefix
after_ends next next' a = refl

after_and_end : (next : Text → Read Expr) (a : Expr) → after_and next (a, []) ≡ some (a, [])
unfolding strip_prefix
after_and_end next a = refl

after_or_end : (next : Text → Read Expr) (a : Expr) → after_or next (a, []) ≡ some (a, [])
unfolding strip_prefix
after_or_end next a = refl

module _ (k : ℕ) (p : Text) (ps : List Text) (hk : length ps ≤ k)
    (h : NoBreak p × AllOneLine ps) where
  pub read-allow : read_expr (eight k) or_level (joined p ps) ≡ some (joined_expr p ps, [])
  read-allow = rw (← append-nil (joined p ps)) (
      read_expr-or_join (suc (suc (suc (suc (suc k))))) p ps [] (omega arith) h
        (unfold strip_prefix in (refl, refl)))

  read-not :
      read_expr
        (suc (suc (suc (suc (suc k)))))
        unary_level
        (codes "!(" ++ (joined p ps ++ codes ")"))
      ≡ some (negate (joined_expr p ps), [])
  read-not = rw (read_expr-not, read_expr-bracketed k p ps [] hk h)

module _ (k : ℕ) (p : Text) (ps : List Text) (hk : length ps ≤ k)
    (h : NoBreak p × AllOneLine ps) where
  pub read-deny :
      read_expr (eight k) or_level (codes "!(" ++ (joined p ps ++ codes ")"))
      ≡ some (negate (joined_expr p ps), [])
  read-deny =
      rw (read_expr-or_level, read_expr-and_level, read-not (suc k) p ps (omega arith) h)
        (after_ends (read_expr (suc (suc (suc (suc (suc (suc k)))))) and_level)
          (read_expr (suc (suc (suc (suc (suc (suc (suc k))))))) or_level)
          (negate (joined_expr p ps)))

  module _ (q : Text) (qs : List Text) (hq : length qs ≤ k) (h' : NoBreak q × AllOneLine qs) where
    pub read-both :
        read_expr
          (eight k)
          or_level
          (codes "(" ++ (joined p ps ++ (codes ") && !(" ++ (joined q qs ++ codes ")"))))
        ≡ some (both (joined_expr p ps) (negate (joined_expr q qs)), [])
    read-both = rw (
      read_expr-or_level,
      read_expr-and_level,
      read_expr-bracketed (suc (suc k)) p ps (codes " && !(" ++ (joined q qs ++ codes ")"))
          (omega arith) h,
      after_and_more _ _ _
          (strip_prefix-append (codes " && ") (codes "!(" ++ (joined q qs ++ codes ")"))),
      read_expr-and_level,
      read-not k q qs hq h',
      after_and_end,
      after_or_end,
    )

-- A rule is read if the reader reaches its end with the calls that its length allows.
pub read_rule-eight :
    (r : Text) (e : Expr)
    → read_expr (eight (length r)) or_level r ≡ some (e, [])
    → read_rule r ≡ some e
unfolding read_rule
read_rule-eight r e h = let depth : length r + 8 ≡ eight (length r) = omega arith in rw (depth, h)

abbrev pub filter_of : List Text → List Text → Option ToolFilter
filter_of allow deny = some (record { allow = allow; deny = deny })

pub length-both :
    (p : Text) (ps : List Text) (q : Text) (qs : List Text)
    → (length ps
        ≤ length (codes "(" ++ (joined p ps ++ (codes ") && !(" ++ (joined q qs ++ codes ")")))))
      × (length qs
          ≤ length (codes "(" ++ (joined p ps ++ (codes ") && !(" ++ (joined q qs ++ codes ")")))))
length-both p ps q qs = omega (
  arith,
  length-joined p ps,
  length-joined q qs,
  length-append (joined p ps) (codes ") && !(" ++ (joined q qs ++ codes ")")),
  length-append (joined q qs) (codes ")"),
)

-- What is generated for each shape of a filter.
module _ (p : Text) (ps : List Text) where
  pub build-allow : build_mcp_authorization_rules (filter_of (p ∷ ps) []) ≡ joined p ps ∷ []
  unfolding build_mcp_authorization_rules combine_rules
  build-allow = ground arith

  pub build-deny :
      build_mcp_authorization_rules (filter_of [] (p ∷ ps))
      ≡ (codes "!(" ++ (joined p ps ++ codes ")")) ∷ []
  unfolding build_mcp_authorization_rules combine_rules
  build-deny = ground arith

  pub build-both :
      (q : Text) (qs : List Text)
      → build_mcp_authorization_rules (filter_of (p ∷ ps) (q ∷ qs))
        ≡ (codes "(" ++ (joined p ps ++ (codes ") && !(" ++ (joined q qs ++ codes ")")))) ∷ []
  unfolding build_mcp_authorization_rules combine_rules
  build-both q qs = ground arith
