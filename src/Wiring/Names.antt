-- ===== src/Wiring/Names.antt =====
-- The names of the objects that the reconcilers make: which of them can meet.
use Prim.Native.Char.{code}
use Prim.Native.String.{◌++◌}
use text.Mathlib.TextLemmas.{nil-append, cons-append, append_cancel_left, append_cancel_right}
use tool_gateway_agentgatewa.Prelude.{arith, ℕ, String, ◌≡◌, ◌≢◌, sym, ap, ◌∙◌}
use tool_gateway_agentgatewa.Kube.Types.{Key, ToolGateway, ToolRoute, Guard}
use tool_gateway_agentgatewa.Gateway.Guardrails.{guardrail_policy_key}
use tool_gateway_agentgatewa.Route.Ensure.{child_key, tool_filter_policy_key}
use tool_gateway_agentgatewa.Adapter.Ensure.{adapter_key, adapter_name}

-- The code of the last character, or the given one.
abbrev last_of : ℕ → String → ℕ
last_of d String.[] = d
last_of d (String.◌∷◌ c s) = last_of (code c) s

last_of-append : (d : ℕ) (s t : String) → last_of d (s ++ t) ≡ last_of (last_of d s) t
last_of-append d String.[] t = ap (last_of d) (nil-append t)
last_of-append d (String.◌∷◌ c s) t =
    ap (last_of d) (cons-append c s t) ∙ last_of-append (code c) s t

-- A Guard is known by the name of its adapter.
pub adapter_key_injective : (g g' : Guard) → adapter_key g ≡ adapter_key g' → g.key ≡ g'.key
unfolding adapter_key adapter_name
adapter_key_injective g g' e =
    let n = append_cancel_right g.key.name g'.key.name "-adapter" (ap (λ k. k.name) e) in
    let ns = ap (λ (k : Key). k.namespace) e in cc

pub guardrail_policy_key_injective :
    (tg tg' : ToolGateway) → guardrail_policy_key tg ≡ guardrail_policy_key tg' → tg.key ≡ tg'.key
unfolding guardrail_policy_key
guardrail_policy_key_injective tg tg' e =
    let n = append_cancel_right tg.key.name tg'.key.name "-guardrail" (ap (λ k. k.name) e) in
    let ns = ap (λ (k : Key). k.namespace) e in cc

-- Under one gateway, a route is known by the name of its children.
pub child_key_injective :
    (tg : ToolGateway) (r r' : ToolRoute) → child_key tg r ≡ child_key tg r' → r.key ≡ r'.key
unfolding child_key
child_key_injective tg r r' e =
    let n =
      append_cancel_left "-" r.key.name r'.key.name
        (append_cancel_left tg.key.name _ _ (ap (λ k. k.name) e)) in
    let ns = ap (λ (k : Key). k.namespace) e in cc

pub tool_filter_policy_key_injective :
    (tg : ToolGateway) (r r' : ToolRoute)
    → tool_filter_policy_key tg r ≡ tool_filter_policy_key tg r'
    → r.key ≡ r'.key
unfolding tool_filter_policy_key
tool_filter_policy_key_injective tg r r' e =
    let n =
      append_cancel_right r.key.name r'.key.name "-toolfilter"
        (append_cancel_left "-" _ _ (append_cancel_left tg.key.name _ _ (ap (λ k. k.name) e))) in
    let ns = ap (λ (k : Key). k.namespace) e in cc

-- The policies of gateways and of routes end in different letters.
pub guardrail_not_tool_filter :
    (tg tg' : ToolGateway) (r : ToolRoute) → guardrail_policy_key tg ≢ tool_filter_policy_key tg' r
unfolding guardrail_policy_key tool_filter_policy_key
guardrail_not_tool_filter tg tg' r e =
    differ (sym ends_in_l ∙ ap (λ (k : Key). last_of 0 k.name) e ∙ ends_in_r)
  where
    differ : ◌≢◌ {A = ℕ} b'l' b'r'
    differ h = omega arith

    ends_in_l : last_of 0 (tg.key.name ++ "-guardrail") ≡ b'l'
    ends_in_l = last_of-append 0 tg.key.name "-guardrail"

    ends_in_r : last_of 0 (tg'.key.name ++ ("-" ++ (r.key.name ++ "-toolfilter"))) ≡ b'r'
    ends_in_r =
        last_of-append 0 tg'.key.name _
        ∙ last_of-append _ "-" (r.key.name ++ "-toolfilter")
        ∙ last_of-append _ r.key.name "-toolfilter"
