-- ===== src/Wiring/Jobs/Runs.antt =====
-- Jobs that write different objects, run one after the other.
use tool_gateway_agentgatewa.Prelude.{
  String, ◌≡◌, ◌≢◌, refl, ap, map, Bool, true, false, List, [], ◌∷◌, Option, All,
}
use tool_gateway_agentgatewa.Kube.Errors.{Result}
use tool_gateway_agentgatewa.Kube.Types.{Key, ToolGateway}
use tool_gateway_agentgatewa.Kube.Objects.{Kind}
use tool_gateway_agentgatewa.Authz.Rules.{build_mcp_authorization_rules}
use tool_gateway_agentgatewa.Prelude.Text.{Text}
use tool_gateway_agentgatewa.Kube.Client.{Env, Act, pure, ◌>>=◌}
use tool_gateway_agentgatewa.Kube.Client.Effect.{IsOther, Store, Ends, Ends-pure, Ends-bind}
use tool_gateway_agentgatewa.Kube.Client.Stored.{IsKept, Stored-IsKept, absent-IsKept, both-IsKept}
use tool_gateway_agentgatewa.Otel.Headers.{HeaderMap}
use tool_gateway_agentgatewa.Gateway.Guardrails.{guardrail_policy_key}
use tool_gateway_agentgatewa.Gateway.InPlace.{HasGuardrails}
use tool_gateway_agentgatewa.Route.Upstream.{Url}
use tool_gateway_agentgatewa.Route.Ensure.{tool_filter_policy_key}
use tool_gateway_agentgatewa.Kube.Types.{ToolRoute}
use tool_gateway_agentgatewa.Route.InPlace.{HasPolicy}
use tool_gateway_agentgatewa.Adapter.StaticConfig.{Rendering}
use tool_gateway_agentgatewa.Wiring.Jobs.{
  Job, a_guard, a_gateway, a_route, objects, AreApart, ArePairwiseApart, InPlace, perform, Settles,
  SparedBy, perform-Settles,
}

module _ {env : Env} (store : Store env) (rendering : Rendering) (image : String)
    (unmarshal : String → Option HeaderMap) (parse_url : String → Result Url) where
  HasGuardrails-IsKept :
      (tg : ToolGateway) (refs : List Key) (k : Kind) (key : Key)
      → IsOther k key Kind.policy (guardrail_policy_key tg)
      → IsKept store k key (HasGuardrails store unmarshal tg refs)
  HasGuardrails-IsKept tg [] k key other w w' same f = absent-IsKept store _ _ _ _ other w w' same f
  HasGuardrails-IsKept tg (ref ∷ []) k key other w w' same (ready, f) =
      (ready, Stored-IsKept store _ _ _ _ _ other w w' same f)
  HasGuardrails-IsKept tg (_ ∷ _ ∷ _) k key other w w' same f = f

  HasPolicy-IsKept :
      (r : ToolRoute) (tg : ToolGateway) (rules : List Text) (k : Kind) (key : Key)
      → IsOther k key Kind.policy (tool_filter_policy_key tg r)
      → IsKept store k key (HasPolicy store parse_url r tg rules)
  HasPolicy-IsKept r tg [] k key other w w' same f = absent-IsKept store _ _ _ _ other w w' same f
  HasPolicy-IsKept r tg (x ∷ xs) k key other w w' same f =
      Stored-IsKept store _ _ _ _ _ other w w' same f

  -- A call on another object takes nothing from a job that is done.
  InPlace-IsKept :
      (j : Job) (k : Kind) (key : Key)
      → All (λ (b : Kind × Key). ◌≢◌ {A = Kind × Key} b (k, key)) (objects j)
      → IsKept store k key (InPlace store rendering image unmarshal parse_url j)
  InPlace-IsKept (a_guard g) k key (c, (d, (s, _))) w w' same f = record {
    provider = f.provider;
    body = f.body;
    hash = f.hash;
    was_read = f.was_read;
    rendered = f.rendered;
    config_map = Stored-IsKept store _ _ _ _ _ c w w' same f.config_map;
    deployment = Stored-IsKept store _ _ _ _ _ d w w' same f.deployment;
    service = Stored-IsKept store _ _ _ _ _ s w w' same f.service;
  }
  InPlace-IsKept (a_gateway tg) k key (p, (g, (q, _))) w w' same f = record {
    parameters = Stored-IsKept store _ _ _ _ _ p w w' same f.parameters;
    gateway = Stored-IsKept store _ _ _ _ _ g w w' same f.gateway;
    guardrails = HasGuardrails-IsKept tg tg.guardrails k key q w w' same f.guardrails;
  }
  InPlace-IsKept (a_route r tg) k key (b, (h, (q, _))) w w' same f = record {
    target = f.target;
    is_target = f.is_target;
    backend = Stored-IsKept store _ _ _ _ _ b w w' same f.backend;
    http_route = Stored-IsKept store _ _ _ _ _ h w w' same f.http_route;
    policy =
        HasPolicy-IsKept r tg (build_mcp_authorization_rules r.tool_filter) k key q w w' same
          f.policy;
  }

  abbrev pub Done : Job × Bool → env.World → Type 0
  Done = Settles store rendering image unmarshal parse_url

  Done-IsKept :
      (j : Job) (b : Bool) (objs : List (Kind × Key))
      → All (λ (a : Kind × Key). All (λ (b : Kind × Key). b ≢ a) (objects j)) objs
      → All (λ (a : Kind × Key). IsKept store a.0 a.1 (Done (j, b))) objs
  Done-IsKept j b [] h = tt
  Done-IsKept j true ((k, key) ∷ objs) (h, hs) =
      (InPlace-IsKept j k key h, Done-IsKept j true objs hs)
  Done-IsKept j false ((k, key) ∷ objs) (h, hs) = ((λ w w' same f. f), Done-IsKept j false objs hs)

  both_spared :
      (F G : env.World → Type 0) (objs : List (Kind × Key))
      → All (λ (a : Kind × Key). IsKept store a.0 a.1 F) objs
      → All (λ (a : Kind × Key). IsKept store a.0 a.1 G) objs
      → All (λ (a : Kind × Key). IsKept store a.0 a.1 (λ w. F w × G w)) objs
  both_spared F G [] hf hg = tt
  both_spared F G (a ∷ objs) (f, fs) (g, gs) = (both-IsKept store f g, both_spared F G objs fs gs)

  -- The jobs in their order, each with whether it succeeded.
  pub run_all : List Job → Act env (List (Job × Bool))
  run_all [] = pure []
  run_all (j ∷ js) = perform store rendering image unmarshal parse_url j >>= λ b.
      run_all js >>= λ rest. pure ((j, b) ∷ rest)

  spared_later :
      (F : env.World → Type 0) (j : Job) (b : Bool) (js : List Job)
      → All (AreApart j) js
      → All (λ j'. SparedBy store rendering image unmarshal parse_url j' F) js
      → All
          (λ j'. SparedBy store rendering image unmarshal parse_url j' (λ w. F w × Done (j, b) w))
          js
  spared_later F j b [] apart spared = tt
  spared_later F j b (j' ∷ js) (a, objs) (s, ss) = (
    both_spared F (Done (j, b)) (objects j') s (Done-IsKept j b (objects j') a),
    spared_later F j b js objs ss,
  )

  pub run_all-Done :
      (js : List Job) (F : env.World → Type 0)
      → ArePairwiseApart js
      → All (λ j. SparedBy store rendering image unmarshal parse_url j F) js
      → Ends env F (run_all js) (λ rs w. F w × All (λ r. Done r w) rs × (map (λ r. r.0) rs ≡ js))
  unfolding run_all
  run_all-Done [] F apart spared = Ends-pure _ (λ w f. (f, tt, refl))
  run_all-Done (j ∷ js) F (a, apart) (s, spared) =
      Ends-bind (perform-Settles store rendering image unmarshal parse_url j s) λ b.
        Ends-bind
          (run_all-Done js (λ w. F w × Done (j, b) w) apart (spared_later F j b js a spared))
          λ rest. Ends-pure _ (λ w f. (f.0.0, (f.0.1, f.1), ap (λ l. j ∷ l) f.2))
