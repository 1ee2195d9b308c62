-- ===== src/Ownership/Answers.antt =====
-- What `resolveToolGatewayKey` and `isToolGatewayOwnedByController` may answer; they write nothing.
use tool_gateway_agentgatewa.Prelude.{◌≡◌, refl, ◌∙◌, Bool, List, [], Option, none, some}
use tool_gateway_agentgatewa.Kube.Errors.{Error, wrapped, Result, ok, err}
use tool_gateway_agentgatewa.Kube.Types.{Key, resolve_ref, ToolGateway, ToolGatewayClass, ToolRoute}
use tool_gateway_agentgatewa.Kube.Client.{Env}
use tool_gateway_agentgatewa.Kube.Client.Logic.{
  Performs, Performs-pure, Performs-ask, Performs-check,
}
use tool_gateway_agentgatewa.Ownership.{
  default_tool_gateway_namespace, claims, first_tool_gateway, resolve_explicit_or_default,
  resolve_tool_gateway_key, is_tool_gateway_owned_by_controller,
}

-- What asking for the ownership may answer.
pub data IsAnswer (env : Env) (tg : ToolGateway) : Result Bool → Type 0 where
  answered :
      (w : env.World) (classes : List ToolGatewayClass)
      → (env.list_tool_gateway_classes w).0 ≡ ok classes
      → IsAnswer env tg (ok (claims classes tg))
  unanswered :
      (w : env.World) (e : Error)
      → (env.list_tool_gateway_classes w).0 ≡ err e
      → IsAnswer env tg (err (wrapped "failed to list ToolGatewayClasses: " e ""))

pub is_tool_gateway_owned_by_controller-Performs :
    (env : Env) (tg : ToolGateway)
    → Performs env
        (is_tool_gateway_owned_by_controller env tg)
        (λ a ws. (ws ≡ []) × IsAnswer env tg a)
unfolding is_tool_gateway_owned_by_controller
is_tool_gateway_owned_by_controller-Performs env tg = Performs-ask _ λ r w h.
    Performs-check (λ e h'. Performs-pure _ (refl, unanswered w e (h ∙ h')))
      (λ cs h'. Performs-pure _ (refl, answered w cs (h ∙ h')))

-- How the resolution of a route's gateway may end: the reference, its namespace filled in; or the
-- first gateway of the listed default namespace; or an error.
pub data IsResolution (env : Env) (route : ToolRoute) : Result Key → Type 0 where
  explicit :
      (ref : Key)
      → route.tool_gateway_ref ≡ some ref
      → IsResolution env route (ok (resolve_ref ref route.key.namespace))
  by_default :
      (w : env.World) (tgs : List ToolGateway)
      → route.tool_gateway_ref ≡ none
      → (env.list_tool_gateways_in default_tool_gateway_namespace w).0 ≡ ok tgs
      → IsResolution env route (first_tool_gateway tgs)
  unlisted :
      (w : env.World) (e : Error)
      → route.tool_gateway_ref ≡ none
      → (env.list_tool_gateways_in default_tool_gateway_namespace w).0 ≡ err e
      → IsResolution env route
          (err (wrapped "failed to list ToolGateways in namespace tool-gateway: " e ""))

resolve_explicit_or_default-Performs :
    (env : Env) (route : ToolRoute) (ref : Option Key)
    → route.tool_gateway_ref ≡ ref
    → Performs env
        (resolve_explicit_or_default env route ref)
        (λ a ws. (ws ≡ []) × IsResolution env route a)
unfolding resolve_explicit_or_default
resolve_explicit_or_default-Performs env route (some ref) same =
    Performs-pure _ (refl, explicit ref same)
resolve_explicit_or_default-Performs env route none same = Performs-ask _ λ r w h.
    Performs-check (λ e h'. Performs-pure _ (refl, unlisted w e same (h ∙ h')))
      (λ tgs h'. Performs-pure _ (refl, by_default w tgs same (h ∙ h')))

pub resolve_tool_gateway_key-Performs :
    (env : Env) (route : ToolRoute)
    → Performs env
        (resolve_tool_gateway_key env route)
        (λ a ws. (ws ≡ []) × IsResolution env route a)
unfolding resolve_tool_gateway_key
resolve_tool_gateway_key-Performs env route =
    resolve_explicit_or_default-Performs env route route.tool_gateway_ref refl
