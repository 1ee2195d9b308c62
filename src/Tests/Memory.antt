-- ===== src/Tests/Memory.antt =====
-- A cluster that keeps its objects: every call does what is documented.
use tool_gateway_agentgatewa.Prelude.{
  ◌≡◌, refl, true, Bool-cases, inl, inr, [], ◌∷◌, Option, none, some, if◌then◌else◌,
}
use tool_gateway_agentgatewa.Kube.Errors.{not_found, Result, ok, err}
use tool_gateway_agentgatewa.Kube.Json.{string}
use tool_gateway_agentgatewa.Kube.Types.{Key, same_key}
use tool_gateway_agentgatewa.Kube.Objects.{
  Kind, gateway, http_route, parameters, policy, backend, config_map, deployment, service, Object,
  Operation, updated,
}
use tool_gateway_agentgatewa.Kube.Client.{Env}
use tool_gateway_agentgatewa.Kube.Client.Effect.{IsOther, or_blank, Store}
use tool_gateway_agentgatewa.Route.Covered.{same_key_refl}
use tool_gateway_agentgatewa.Wiring.Requests.{same_key-equal}
use tool_gateway_agentgatewa.Tests.Nested.{set_at}
use tool_gateway_agentgatewa.Tests.Removed.{remove_at}
use tool_gateway_agentgatewa.Tests.Cluster.{
  main_gateway, search_route, our_class, pii_guard, presidio, cluster,
}

abbrev pub Objects : Type 0
Objects = (k : Kind) → Key → Option (Object k)

pub data SameKind (k : Kind) : Kind → Type 0 where
  same : SameKind k k

abbrev same_kind : (k k' : Kind) → Option (SameKind k k')
same_kind gateway gateway = some same
same_kind http_route http_route = some same
same_kind parameters parameters = some same
same_kind policy policy = some same
same_kind backend backend = some same
same_kind config_map config_map = some same
same_kind deployment deployment = some same
same_kind service service = some same
same_kind _ _ = none

same_kind_refl : (k : Kind) → same_kind k k ≡ some same
same_kind_refl gateway = refl
same_kind_refl http_route = refl
same_kind_refl parameters = refl
same_kind_refl policy = refl
same_kind_refl backend = refl
same_kind_refl config_map = refl
same_kind_refl deployment = refl
same_kind_refl service = refl

abbrev put_same :
    {k k' : Kind}
    → Option (SameKind k k')
    → Key
    → Option (Object k)
    → Key
    → Option (Object k')
    → Option (Object k')
put_same none key o key' old = old
put_same (some same) key o key' old = if same_key key' key then o else old

abbrev put : (k : Kind) → Key → Option (Object k) → Objects → Objects
put k key o w k' key' = put_same (same_kind k k') key o key' (w k' key')

abbrev pub write_back : (k : Kind) → Key → Result (Object k) → Objects → Result Operation × Objects
write_back k key (ok o) w = (ok updated, put k key (some o) w)
write_back k key (err e) w = (err e, w)

abbrev pub take_away : (k : Kind) → Key → Option (Object k) → Objects → Result (Unit {0}) × Objects
take_away k key none w = (err (not_found "objects"), w)
take_away k key (some o) w = (ok tt, put k key none w)

put_there : (k : Kind) (key : Key) (o : Option (Object k)) (w : Objects) → put k key o w k key ≡ o
put_there k key o w = rw (same_kind_refl k, same_key_refl key)

put_same-other :
    {k k' : Kind} (s : Option (SameKind k k')) (key : Key) (o : Option (Object k)) (key' : Key)
    (old : Option (Object k'))
    → IsOther k key k' key'
    → put_same s key o key' old ≡ old
put_same-other none key o key' old other = refl
put_same-other (some same) key o key' old other = elim (Bool-cases (same_key key' key)) [
  | inl e ↦ elim (other (rw (same_key-equal key' key e))) [ ]
  | inr e ↦ rw e
]

pub write_back-stores :
    (k : Kind) (key : Key) (r : Result (Object k)) (w : Objects) (op : Operation)
    → (write_back k key r w).0 ≡ ok op
    → (o : Object k) × (r ≡ ok o) × ((write_back k key r w).1 k key ≡ some o)
write_back-stores k key (ok o) w op h = (o, refl, put_there k key (some o) w)
write_back-stores k key (err e) w op h = cc

pub write_back-other :
    (k : Kind) (key : Key) (r : Result (Object k)) (w : Objects) (k' : Kind) (key' : Key)
    → IsOther k key k' key'
    → (write_back k key r w).1 k' key' ≡ w k' key'
write_back-other k key (ok o) w k' key' other =
    put_same-other (same_kind k k') key (some o) key' (w k' key') other
write_back-other k key (err e) w k' key' other = refl

pub take_away-none :
    (k : Kind) (key : Key) (w : Objects) (o : Option (Object k))
    → w k key ≡ o
    → (take_away k key o w).1 k key ≡ none
take_away-none k key w none h = h
take_away-none k key w (some o) h = put_there k key none w

pub take_away-other :
    (k : Kind) (key : Key) (o : Option (Object k)) (w : Objects) (k' : Kind) (key' : Key)
    → IsOther k key k' key'
    → (take_away k key o w).1 k' key' ≡ w k' key'
take_away-other k key none w k' key' other = refl
take_away-other k key (some o) w k' key' other =
    put_same-other (same_kind k k') key none key' (w k' key') other

abbrev pub memory : Env
memory = record {
  World = Objects;
  get_tool_gateway = λ k w. (ok main_gateway, w);
  get_tool_route = λ k w. (ok search_route, w);
  get_tool_server = λ k w. (err (not_found "toolservers"), w);
  get_guard = λ k w. (ok pii_guard, w);
  get_guardrail_provider = λ k w. (ok presidio, w);
  list_tool_gateways_in = λ n w. (ok (main_gateway ∷ []), w);
  list_tool_gateways = λ w. (ok (main_gateway ∷ []), w);
  list_tool_gateway_classes = λ w. (ok (our_class ∷ []), w);
  list_tool_routes = λ w. (ok (search_route ∷ []), w);
  list_guards = λ w. (ok (pii_guard ∷ []), w);
  create_or_patch = λ k key blank mutate w. write_back k key (mutate (or_blank (w k key) blank)) w;
  delete = λ k key w. take_away k key (w k key) w;
  patch_status = λ k key base new w. (ok tt, w);
  has_recorder = true;
  set_controller_reference = λ w o. ok (some w);
  set_status_condition = λ cs c. c ∷ [];
  remove_status_condition = λ cs kind. cs;
  find_status_condition = cluster.find_status_condition;
  set_nested = λ j v path. set_at path v j;
  remove_nested = λ j path. remove_at path j;
  env_var_to_unstructured = λ v. ok (string v.name);
  env_from_to_unstructured = λ v. ok (string v.prefix);
}

pub store : Store memory
store = record {
  look = λ k key w. w k key;
  stores = λ k key blank mutate w op h.
      write_back-stores k key (mutate (or_blank (w k key) blank)) w op h;
  deletes = λ k key w r h gone. take_away-none k key w (w k key) refl;
  stores_only = λ k key blank mutate w k' key' other.
      write_back-other k key (mutate (or_blank (w k key) blank)) w k' key' other;
  deletes_only = λ k key w k' key' other. take_away-other k key (w k key) w k' key' other;
  patches_none = λ o key base new w k' key'. refl;
  gets_no_guard = λ key w k' key'. refl;
  gets_no_provider = λ key w k' key'. refl;
  gets_no_server = λ key w k' key'. refl;
}

-- The cluster before any run.
abbrev pub empty : Objects
empty k key = none
