-- ===== src/Kube/Settled.antt =====
-- What the mutations rely on to leave their own result as it is.
use tool_gateway_agentgatewa.Prelude.{
  String, ◌≡◌, Bool, true, false, List, [], ◌∷◌, Option, str_eq, if◌then◌else◌,
}
use tool_gateway_agentgatewa.Kube.Errors.{ok}
use tool_gateway_agentgatewa.Kube.Json.{Json}
use tool_gateway_agentgatewa.Kube.Objects.{Owner}
use tool_gateway_agentgatewa.Kube.Client.{Env}

-- `SetControllerReference` accepts an owner that it has set, and keeps it.
abbrev pub KeepsOwner : Env → Type 0
KeepsOwner env =
    (w : Owner) (o o' : Option Owner)
    → env.set_controller_reference w o ≡ ok o'
    → env.set_controller_reference w o' ≡ ok o'

-- Setting what is set already changes nothing.
abbrev pub KeepsField : Env → Type 0
KeepsField env =
    (j j' v : Json) (path : List String)
    → env.set_nested j v path ≡ ok j'
    → env.set_nested j' v path ≡ ok j'

-- Two paths that part.
abbrev pub parts : List String → List String → Bool
parts [] q = false
parts (a ∷ p) [] = false
parts (a ∷ p) (b ∷ q) = let rest = parts p q in if str_eq a b then rest else true

-- The field is there already, or is not there already.
abbrev pub HasField : Env → Json → List String → Json → Type 0
HasField env v path j = env.set_nested j v path ≡ ok j

abbrev pub LacksField : Env → List String → Json → Type 0
LacksField env path j = env.remove_nested j path ≡ j

-- Setting a field leaves a field alone whose path parts from its own, and what is removed is gone.
pub record KeepsOthers (env : Env) : Type 0 where
  pub keeps_set :
      (j j' v v' : Json) (p q : List String)
      → parts p q ≡ true
      → HasField env v p j
      → env.set_nested j v' q ≡ ok j'
      → HasField env v p j'
  pub keeps_unset :
      (j j' v : Json) (p q : List String)
      → parts p q ≡ true
      → LacksField env p j
      → env.set_nested j v q ≡ ok j'
      → LacksField env p j'
  pub removes : (j : Json) (p : List String) → LacksField env p (env.remove_nested j p)
