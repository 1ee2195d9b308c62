-- ===== src/Ownership.antt =====
-- internal/controller/class_ownership.go: the gateway that a route targets, and the gateways that
-- this controller owns.
pub mod Answers
pub mod Claims
use tool_gateway_agentgatewa.Prelude.{
  String, Bool, true, false, List, [], ◌∷◌, Option, none, some, any, str_eq, if◌then◌else◌,
}
use tool_gateway_agentgatewa.Kube.Errors.{
  Error, sentinel, no_default_tool_gateway, wrapped, Result, ok, err,
}
use tool_gateway_agentgatewa.Kube.Types.{Key, resolve_ref, ToolGateway, ToolGatewayClass, ToolRoute}
use tool_gateway_agentgatewa.Kube.Client.{Env, Act, pure, ◌>>=◌, check, query}

abbrev pub controller_name : String
controller_name = "runtime.agentic-layer.ai/tool-gateway-agentgateway-controller"

abbrev pub default_annotation : String
default_annotation = "toolgatewayclass.kubernetes.io/is-default-class"

abbrev pub default_tool_gateway_namespace : String
default_tool_gateway_namespace = "tool-gateway"

-- `annotations[key]`, the empty text where the key is missing.
unfoldable pub annotation : String → List (String × String) → String
annotation key [] = ""
annotation key ((k, v) ∷ rest) = if str_eq k key then v else annotation key rest

-- The first loop of `isToolGatewayOwnedByController`.
unfoldable pub owned_classes : List ToolGatewayClass → List ToolGatewayClass
owned_classes [] = []
owned_classes (c ∷ cs) =
    let rest = owned_classes cs in if str_eq c.controller controller_name then c ∷ rest else rest

abbrev pub is_default_class : ToolGatewayClass → Bool
is_default_class c = str_eq (annotation default_annotation c.annotations) "true"

-- What follows the listing of the classes.
unfoldable pub claims : List ToolGatewayClass → ToolGateway → Bool
claims classes tg =
    let owned = owned_classes classes in
    let class_name = tg.tool_gateway_class_name in
    if str_eq class_name ""
    then any is_default_class owned
    else any (λ c. str_eq c.name class_name) owned

-- What follows the listing of the default namespace: the first gateway wins.
unfoldable pub first_tool_gateway : List ToolGateway → Result Key
first_tool_gateway [] = err (sentinel no_default_tool_gateway)
first_tool_gateway (tg ∷ _) = ok tg.key

module _ (env : Env) where
  unfoldable pub resolve_explicit_or_default : ToolRoute → Option Key → Act env (Result Key)
  resolve_explicit_or_default route (some ref) = pure (ok (resolve_ref ref route.key.namespace))
  resolve_explicit_or_default route none = do
    items ← query (env.list_tool_gateways_in default_tool_gateway_namespace)
    check items
        (λ e. pure (err (wrapped "failed to list ToolGateways in namespace tool-gateway: " e "")))
        (λ tgs. pure (first_tool_gateway tgs))

  unfoldable pub resolve_tool_gateway_key : ToolRoute → Act env (Result Key)
  resolve_tool_gateway_key route = resolve_explicit_or_default route route.tool_gateway_ref

  unfoldable pub is_tool_gateway_owned_by_controller : ToolGateway → Act env (Result Bool)
  is_tool_gateway_owned_by_controller tg = do
    classes ← query env.list_tool_gateway_classes
    check classes (λ e. pure (err (wrapped "failed to list ToolGatewayClasses: " e "")))
        (λ cs. pure (ok (claims cs tg)))
