-- ===== src/Kube/Client.antt =====
-- What the controllers call and this repository does not implement: the API client of
-- controller-runtime, `controllerutil`, `apimeta` and `unstructured`. They are the operations of
-- `Env`, over an abstract world in which anything may happen between two calls. The actions of the
-- controllers keep a log of their calls that write.
pub mod Writes
pub mod Logic
pub mod Passed
pub mod Effect
pub mod Willing
pub mod Stored
use tool_gateway_agentgatewa.Prelude.{String, Bool, if◌then◌else◌, List, [], ◌∷◌, ◌++◌, Option}
use tool_gateway_agentgatewa.Kube.Errors.{Error, Result, ok, err}
use tool_gateway_agentgatewa.Kube.Types.{
  Key, Condition, Status, EnvVar, EnvFromSource, ToolGateway, ToolGatewayClass, ToolRoute,
  ToolServer, Guard, GuardrailProvider,
}
use tool_gateway_agentgatewa.Kube.Json.{Json}
use tool_gateway_agentgatewa.Kube.Objects.{
  Kind, OwnerKind, Owner, Object, Operation, unchanged, created, updated,
}

pub record Env : Type 1 where
  pub World : Type 0
  -- `Get`, one for each type that is read
  pub get_tool_gateway : Key → World → Result ToolGateway × World
  pub get_tool_route : Key → World → Result ToolRoute × World
  pub get_tool_server : Key → World → Result ToolServer × World
  pub get_guard : Key → World → Result Guard × World
  pub get_guardrail_provider : Key → World → Result GuardrailProvider × World
  -- `List`; the first takes `client.InNamespace`
  pub list_tool_gateways_in : String → World → Result (List ToolGateway) × World
  pub list_tool_gateways : World → Result (List ToolGateway) × World
  pub list_tool_gateway_classes : World → Result (List ToolGatewayClass) × World
  pub list_tool_routes : World → Result (List ToolRoute) × World
  pub list_guards : World → Result (List Guard) × World
  -- `controllerutil.CreateOrPatch(obj, mutate)` and `Delete`
  pub create_or_patch :
      (k : Kind)
      → Key
      → Object k
      → (Object k → Result (Object k))
      → World
      → Result Operation × World
  pub delete : Kind → Key → World → Result (Unit {0}) × World
  -- `Status().Patch`
  -- with `client.MergeFrom`: the status that the patch starts from, and the new one
  pub patch_status : OwnerKind → Key → Status → Status → World → Result (Unit {0}) × World
  -- whether a `Recorder` is wired; where it is nil no event is recorded
  pub has_recorder : Bool
  -- `controllerutil.SetControllerReference`, on the controlling owner of the object
  pub set_controller_reference : Owner → Option Owner → Result (Option Owner)
  -- `apimeta.SetStatusCondition`, `RemoveStatusCondition`, `FindStatusCondition`
  pub set_status_condition : List Condition → Condition → List Condition
  pub remove_status_condition : List Condition → String → List Condition
  pub find_status_condition : List Condition → String → Option Condition
  -- `unstructured.SetNestedField` at a path (also `SetNestedMap` and `SetNestedSlice`), and
  -- `RemoveNestedField`
  pub set_nested : Json → Json → List String → Result Json
  pub remove_nested : Json → List String → Json
  -- `runtime.DefaultUnstructuredConverter.ToUnstructured`
  pub env_var_to_unstructured : EnvVar → Result Json
  pub env_from_to_unstructured : EnvFromSource → Result Json

-- The calls that write, and the events. A status patch shows the status
-- that it starts from and the one that it sends; an event, the object, the reason and the note.
pub data Call : Type 0 where
  upsert : Kind → Key → Call
  remove : Kind → Key → Call
  patch : OwnerKind → Key → Status → Status → Call
  event : OwnerKind → Key → String → String → Call

module _ (env : Env) where
  pub record Sys : Type 0 where
    pub world : env.World
    pub log : List Call

  abbrev pub Act : Type 0 → Type 0
  Act A = Sys → A × Sys

module _ {env : Env} where
  unfoldable pub pure : {A : Type 0} → A → Act env A
  pure a s = (a, s)

  infixl 5 ◌>>=◌ ◌>>◌
  unfoldable pub ◌>>=◌ : {A B : Type 0} → Act env A → (A → Act env B) → Act env B
  ◌>>=◌ m f s = let (a, s') = m s in f a s'

  abbrev pub ◌>>◌ : {B : Type 0} → Act env (Unit {0}) → Act env B → Act env B
  m >> k = m >>= λ _. k

  -- `if err != nil { on error } ...`
  unfoldable pub check :
      {A B : Type 0} → Result A → (Error → Act env B) → (A → Act env B) → Act env B
  check (ok a) handle go = go a
  check (err e) handle go = handle e

  -- A call that only reads.
  unfoldable pub query : {A : Type 0} → (env.World → A × env.World) → Act env A
  query f s = let (a, w) = f s.world in (a, record s { world = w })

  -- A call that writes, with its entry in the log.
  unfoldable pub command : {A : Type 0} → Call → (env.World → A × env.World) → Act env A
  command c f s = let (a, w) = f s.world in (a, record { world = w; log = s.log ++ c ∷ [] })

  -- `emitNormalEvent` of both reconcilers.
  unfoldable pub emit_normal_event : OwnerKind → Key → String → String → Act env (Unit {0})
  emit_normal_event k key reason note s =
      if env.has_recorder
      then (tt, record s { log = s.log ++ event k key reason note ∷ [] })
      else (tt, s)

  -- The `switch op` behind each `CreateOrPatch`: an event only where something changed.
  unfoldable pub emit_operation :
      OwnerKind → Key → String × String → String × String → Operation → Act env (Unit {0})
  emit_operation k key (reason, note) on_update created = emit_normal_event k key reason note
  emit_operation k key on_create (reason, note) updated = emit_normal_event k key reason note
  emit_operation k key on_create on_update unchanged = pure tt
