-- ===== src/Ownership/Claims.antt =====
-- Which gateways this controller claims, in one pass over the classes.
use tool_gateway_agentgatewa.Prelude.{
  ◌≡◌, refl, Bool, true, false, ◌&&◌, List, [], ◌∷◌, any, str_eq, if◌then◌else◌, arith,
}
use tool_gateway_agentgatewa.Kube.Types.{ToolGateway, ToolGatewayClass}
use tool_gateway_agentgatewa.Ownership.{controller_name, is_default_class, owned_classes, claims}

-- A class gives a gateway to this controller: it names this controller, and it is the class of the
-- gateway, or a default class where the gateway names none.
abbrev pub gives : ToolGateway → ToolGatewayClass → Bool
gives tg c =
    str_eq c.controller controller_name
    && (if str_eq tg.tool_gateway_class_name ""
        then is_default_class c
        else str_eq c.name tg.tool_gateway_class_name)

any-owned_classes :
    (test : ToolGatewayClass → Bool) (classes : List ToolGatewayClass)
    → any test (owned_classes classes)
      ≡ any (λ c. str_eq c.controller controller_name && test c) classes
unfolding owned_classes
any-owned_classes test [] = refl
any-owned_classes test (c ∷ cs) = ground (arith, any-owned_classes test cs)

any-if :
    (p q : ToolGatewayClass → Bool) (classes : List ToolGatewayClass) (b : Bool)
    → (if b then any p (owned_classes classes) else any q (owned_classes classes))
      ≡ any (λ c. str_eq c.controller controller_name && (if b then p c else q c)) classes
any-if p q classes true = any-owned_classes p classes
any-if p q classes false = any-owned_classes q classes

-- A gateway is claimed exactly where one of the listed classes gives it to this controller: a class of
-- another controller never counts, and more than one default class is no obstacle.
pub claims-gives :
    (classes : List ToolGatewayClass) (tg : ToolGateway)
    → claims classes tg ≡ any (gives tg) classes
unfolding claims
claims-gives classes tg =
    any-if is_default_class (λ c. str_eq c.name tg.tool_gateway_class_name) classes
      (str_eq tg.tool_gateway_class_name "")
