-- ===== src/Gateway/Covered.antt =====
-- The watch on GuardrailProviders covers the watch on Guards.
use tool_gateway_agentgatewa.Prelude.{
  String, ◌≡◌, sym, ◌∙◌, Bool, true, List, [], ◌∷◌, Member, here, there, Member-any, any-Member,
  str_eq, eq_iff, eq_refl, if-holds,
}
use tool_gateway_agentgatewa.Prelude.Text.{concat}
use tool_gateway_agentgatewa.Kube.Results.{and-true, true_not_false}
use tool_gateway_agentgatewa.Kube.Types.{Key, same_key, resolve_ref, ToolGateway, Guard}
use tool_gateway_agentgatewa.Gateway.Watches.{
  requests_where, references_guard, affected_guards, references_affected,
}

abbrev guard_text : Key → String
guard_text k = concat (k.namespace ∷ "/" ∷ k.name ∷ [])

same_key-guard_text :
    (a b : Key) → same_key a b ≡ true → str_eq (guard_text b) (guard_text a) ≡ true
same_key-guard_text a b h =
    let (same_name, same_namespace) =
      and-true (str_eq a.name b.name) (str_eq a.namespace b.namespace) h in
    let n = (eq_iff a.name b.name).0 same_name in
    let m = (eq_iff a.namespace b.namespace).0 same_namespace in rw (n, m, eq_refl (guard_text b))

affected_guards-Member :
    (provider : Key) (g : Guard) {gs : List Guard}
    → Member g gs
    → same_key (resolve_ref g.provider_ref g.key.namespace) provider ≡ true
    → Member (guard_text g.key) (affected_guards provider gs)
unfolding affected_guards
affected_guards-Member provider g here h =
    if-holds (Member (guard_text g.key))
      (same_key (resolve_ref g.provider_ref g.key.namespace) provider) (λ _. here)
      (λ n. elim (true_not_false (sym h ∙ n)) [ ])
affected_guards-Member provider g (there {y} m) h =
    if-holds (Member (guard_text g.key))
      (same_key (resolve_ref y.provider_ref y.key.namespace) provider)
      (λ _. there (affected_guards-Member provider g m h))
      (λ _. affected_guards-Member provider g m h)

requests_where-Member :
    (test : ToolGateway → Bool) (tg : ToolGateway) {tgs : List ToolGateway}
    → Member tg tgs
    → test tg ≡ true
    → Member tg.key (requests_where test tgs)
unfolding requests_where
requests_where-Member test tg here h =
    if-holds (Member tg.key) (test tg) (λ _. here) (λ n. elim (true_not_false (sym h ∙ n)) [ ])
requests_where-Member test tg (there {y} m) h =
    if-holds (Member tg.key) (test y) (λ _. there (requests_where-Member test tg m h))
      (λ _. requests_where-Member test tg m h)

references_guard-references_affected :
    (guard : Key) (affected : List String) (tg : ToolGateway)
    → Member (guard_text guard) affected
    → references_guard guard tg ≡ true
    → references_affected affected tg ≡ true
unfolding references_guard references_affected
references_guard-references_affected guard affected tg m h =
    let (ref, in_tg, same) =
      any-Member (λ ref. same_key (resolve_ref ref tg.key.namespace) guard) tg.guardrails h in
    Member-any _ in_tg
      (Member-any _ m (same_key-guard_text (resolve_ref ref tg.key.namespace) guard same))

-- A change of a GuardrailProvider sends back each listed gateway that references a listed Guard of that
-- provider, so each gateway that a change of the Guard itself would send back.
pub references_affected-covers :
    (provider : Key) (guard : Guard) (guards : List Guard) (tg : ToolGateway)
    (tgs : List ToolGateway)
    → Member guard guards
    → same_key (resolve_ref guard.provider_ref guard.key.namespace) provider ≡ true
    → Member tg tgs
    → references_guard guard.key tg ≡ true
    → Member tg.key (requests_where (references_affected (affected_guards provider guards)) tgs)
references_affected-covers provider guard guards tg tgs g_in of_provider tg_in refs =
    requests_where-Member _ tg tg_in (
      references_guard-references_affected guard.key _ tg
        (affected_guards-Member provider guard g_in of_provider) refs)
