-- ===== src/Wiring/Jobs/Apart.antt =====
-- Which jobs write different objects.
use tool_gateway_agentgatewa.Prelude.{String, map, ◌≡◌, ◌≢◌, ap, sym, Option, List, [], ◌∷◌, All}
use tool_gateway_agentgatewa.Kube.Errors.{Result}
use tool_gateway_agentgatewa.Kube.Types.{Key, ToolGateway, ToolRoute, Guard}
use tool_gateway_agentgatewa.Kube.Objects.{Kind}
use tool_gateway_agentgatewa.Kube.Client.{Env}
use tool_gateway_agentgatewa.Kube.Client.Effect.{Store, Ends, Ends-weaken}
use tool_gateway_agentgatewa.Otel.Headers.{HeaderMap}
use tool_gateway_agentgatewa.Route.Upstream.{Url}
use tool_gateway_agentgatewa.Route.Ensure.{child_key, tool_filter_policy_key}
use tool_gateway_agentgatewa.Adapter.StaticConfig.{Rendering}
use tool_gateway_agentgatewa.Wiring.Names.{
  adapter_key_injective, guardrail_policy_key_injective, child_key_injective,
  tool_filter_policy_key_injective, guardrail_not_tool_filter,
}
use tool_gateway_agentgatewa.Wiring.Meets.{
  NamesMeet, child_key_iff, tool_filter_policy_key-NamesMeet,
}
use tool_gateway_agentgatewa.Wiring.Jobs.{
  Job, a_guard, a_gateway, a_route, AreApart, ArePairwiseApart, SparedBy,
}
use tool_gateway_agentgatewa.Wiring.Jobs.Runs.{run_all, Done, run_all-Done}

-- Jobs on different objects of one type; of two routes, under one gateway, in two namespaces, or with
-- names that do not meet.
pub data AreDifferent : Job → Job → Type 0 where
  guards : (g g' : Guard) → g.key ≢ g'.key → AreDifferent (a_guard g) (a_guard g')
  gateways : (tg tg' : ToolGateway) → tg.key ≢ tg'.key → AreDifferent (a_gateway tg) (a_gateway tg')
  routes :
      (tg : ToolGateway) (r r' : ToolRoute)
      → r.key ≢ r'.key
      → AreDifferent (a_route r tg) (a_route r' tg)
  far_routes :
      (tg tg' : ToolGateway) (r r' : ToolRoute)
      → r.key.namespace ≢ r'.key.namespace
      → AreDifferent (a_route r tg) (a_route r' tg')
  unmet_routes :
      (tg tg' : ToolGateway) (r r' : ToolRoute)
      → ¬ NamesMeet tg.key.name r.key.name tg'.key.name r'.key.name
      → AreDifferent (a_route r tg) (a_route r' tg')
  guard_gateway : (g : Guard) (tg : ToolGateway) → AreDifferent (a_guard g) (a_gateway tg)
  gateway_guard : (tg : ToolGateway) (g : Guard) → AreDifferent (a_gateway tg) (a_guard g)
  guard_route :
      (g : Guard) (r : ToolRoute) (tg : ToolGateway) → AreDifferent (a_guard g) (a_route r tg)
  route_guard :
      (r : ToolRoute) (tg : ToolGateway) (g : Guard) → AreDifferent (a_route r tg) (a_guard g)
  gateway_route :
      (tg : ToolGateway) (r : ToolRoute) (tg' : ToolGateway)
      → AreDifferent (a_gateway tg) (a_route r tg')
  route_gateway :
      (r : ToolRoute) (tg' tg : ToolGateway) → AreDifferent (a_route r tg') (a_gateway tg)

-- Two objects whose keys differ.
keys_differ : (k : Kind) (key key' : Key) → key ≢ key' → ◌≢◌ {A = Kind × Key} (k, key) (k, key')
keys_differ k key key' h e = h (ap (λ p. p.1) e)

namespaces_differ :
    (k : Kind) (key key' : Key)
    → key.namespace ≢ key'.namespace
    → ◌≢◌ {A = Kind × Key} (k, key) (k, key')
namespaces_differ k key key' h e = h (ap (λ p. p.1.namespace) e)

different-AreApart : {j j' : Job} → AreDifferent j j' → AreApart j j'
unfolding child_key tool_filter_policy_key
different-AreApart (guards g g' h) =
    let other = λ (k : Kind). keys_differ k _ _ (λ e. h (adapter_key_injective g g' e)) in
    (
      (other Kind.config_map, (λ e. cc, (λ e. cc, tt))),
      (
        (λ e. cc, (other Kind.deployment, (λ e. cc, tt))),
        ((λ e. cc, (λ e. cc, (other Kind.service, tt))), tt),
      ),
    )
different-AreApart (gateways tg tg' h) = (
  (keys_differ _ _ _ h, (λ e. cc, (λ e. cc, tt))),
  (
    (λ e. cc, (keys_differ _ _ _ h, (λ e. cc, tt))),
    (
      (
        λ e. cc,
        (λ e. cc, (keys_differ _ _ _ (λ e. h (guardrail_policy_key_injective tg tg' e)), tt)),
      ),
      tt,
    ),
  ),
)
different-AreApart (routes tg r r' h) =
    let other = λ (k : Kind). keys_differ k _ _ (λ e. h (child_key_injective tg r r' e)) in
    (
      (other Kind.backend, (λ e. cc, (λ e. cc, tt))),
      (
        (λ e. cc, (other Kind.http_route, (λ e. cc, tt))),
        (
          (
            λ e. cc,
            (
              λ e. cc,
              (keys_differ _ _ _ (λ e. h (tool_filter_policy_key_injective tg r r' e)), tt),
            ),
          ),
          tt,
        ),
      ),
    )
different-AreApart (far_routes tg tg' r r' h) = (
  (namespaces_differ _ _ _ h, (λ e. cc, (λ e. cc, tt))),
  (
    (λ e. cc, (namespaces_differ _ _ _ h, (λ e. cc, tt))),
    ((λ e. cc, (λ e. cc, (namespaces_differ _ _ _ h, tt))), tt),
  ),
)
different-AreApart (unmet_routes tg tg' r r' h) =
    let other = λ (k : Kind). keys_differ k _ _ (λ e. h ((child_key_iff tg tg' r r').0 e).1) in
    (
      (other Kind.backend, (λ e. cc, (λ e. cc, tt))),
      (
        (λ e. cc, (other Kind.http_route, (λ e. cc, tt))),
        (
          (
            λ e. cc,
            (
              λ e. cc,
              (keys_differ _ _ _ (λ e. h (tool_filter_policy_key-NamesMeet tg tg' r r' e)), tt),
            ),
          ),
          tt,
        ),
      ),
    )
different-AreApart (guard_gateway g tg) = (
  (λ e. cc, (λ e. cc, (λ e. cc, tt))),
  ((λ e. cc, (λ e. cc, (λ e. cc, tt))), ((λ e. cc, (λ e. cc, (λ e. cc, tt))), tt)),
)
different-AreApart (gateway_guard tg g) = (
  (λ e. cc, (λ e. cc, (λ e. cc, tt))),
  ((λ e. cc, (λ e. cc, (λ e. cc, tt))), ((λ e. cc, (λ e. cc, (λ e. cc, tt))), tt)),
)
different-AreApart (guard_route g r tg) = (
  (λ e. cc, (λ e. cc, (λ e. cc, tt))),
  ((λ e. cc, (λ e. cc, (λ e. cc, tt))), ((λ e. cc, (λ e. cc, (λ e. cc, tt))), tt)),
)
different-AreApart (route_guard r tg g) = (
  (λ e. cc, (λ e. cc, (λ e. cc, tt))),
  ((λ e. cc, (λ e. cc, (λ e. cc, tt))), ((λ e. cc, (λ e. cc, (λ e. cc, tt))), tt)),
)
different-AreApart (gateway_route tg r tg') = (
  (λ e. cc, (λ e. cc, (λ e. cc, tt))),
  (
    (λ e. cc, (λ e. cc, (λ e. cc, tt))),
    ((λ e. cc, (λ e. cc, (keys_differ _ _ _ (guardrail_not_tool_filter tg tg' r), tt))), tt),
  ),
)
different-AreApart (route_gateway r tg' tg) = (
  (λ e. cc, (λ e. cc, (λ e. cc, tt))),
  (
    (λ e. cc, (λ e. cc, (λ e. cc, tt))),
    (
      (
        λ e. cc,
        (λ e. cc, (keys_differ _ _ _ (λ e. guardrail_not_tool_filter tg tg' r (sym e)), tt)),
      ),
      tt,
    ),
  ),
)

abbrev pub ArePairwiseDifferent : List Job → Type 0
ArePairwiseDifferent [] = Unit
ArePairwiseDifferent (j ∷ js) = All (AreDifferent j) js × ArePairwiseDifferent js

apart_each : (j : Job) (js : List Job) → All (AreDifferent j) js → All (AreApart j) js
apart_each j [] h = tt
apart_each j (j' ∷ js) (h, hs) = (different-AreApart h, apart_each j js hs)

pairwise_apart : (js : List Job) → ArePairwiseDifferent js → ArePairwiseApart js
pairwise_apart [] h = tt
pairwise_apart (j ∷ js) (h, hs) = (apart_each j js h, pairwise_apart js hs)

spared_each : (js : List Job) {P : Job → Type 0} → ((j : Job) → P j) → All P js
spared_each [] h = tt
spared_each (j ∷ js) h = (h j, spared_each js h)

module _ {env : Env} (store : Store env) (rendering : Rendering) (image : String)
    (unmarshal : String → Option HeaderMap) (parse_url : String → Result Url) where
  -- Where the calls of the client do what is documented, and jobs on different objects are run one
  -- after the other in any order (different Guards, different ToolGateways, and routes that differ
  -- under one gateway, lie in two namespaces, or have names that do not meet), the cluster at the
  -- end holds what each job that succeeded has left there: no later run has taken anything of it
  -- away.
  pub run_all-Settles :
      (js : List Job)
      → ArePairwiseDifferent js
      → Ends env
          (λ w. Unit)
          (run_all store rendering image unmarshal parse_url js)
          (λ rs w.
            All (λ r. Done store rendering image unmarshal parse_url r w) rs
            × (map (λ r. r.0) rs ≡ js))
  run_all-Settles js different =
      Ends-weaken
        (run_all-Done store rendering image unmarshal parse_url js (λ w. Unit)
          (pairwise_apart js different) (spared_each js nothing))
        (λ rs w f. (f.1, f.2))
    where
      nothing : (j : Job) → SparedBy store rendering image unmarshal parse_url j (λ w. Unit)
      nothing (a_guard g) = ((λ w w' same f. f), ((λ w w' same f. f), ((λ w w' same f. f), tt)))
      nothing (a_gateway tg) = ((λ w w' same f. f), ((λ w w' same f. f), ((λ w w' same f. f), tt)))
      nothing (a_route r tg) = ((λ w w' same f. f), ((λ w w' same f. f), ((λ w w' same f. f), tt)))
