-- ===== src/Kube/Types.antt =====
-- The custom resources that the controllers read, as far as they read them. The Go types are those
-- of agent-runtime-operator's API; the comments name their Go fields where the words differ.
use tool_gateway_agentgatewa.Prelude.{ℕ, String, Bool, ◌&&◌, List, Option, str_eq, if◌then◌else◌}
use tool_gateway_agentgatewa.Authz.Rules.{ToolFilter}

-- `types.NamespacedName`; also the references in a spec, where `namespace` may be empty.
pub record Key : Type 0 where
  pub namespace : String
  pub name : String

abbrev pub same_key : Key → Key → Bool
same_key a b = str_eq a.name b.name && str_eq a.namespace b.namespace

-- `ns := ref.Namespace; if ns == "" { ns = owner.Namespace }`
unfoldable pub resolve_ref : Key → String → Key
resolve_ref ref namespace = record {
  namespace = if str_eq ref.namespace "" then namespace else ref.namespace;
  name = ref.name;
}

pub data ConditionStatus : Type 0 where
  condition_true condition_false condition_unknown : ConditionStatus

abbrev pub is_true : ConditionStatus → Bool
is_true condition_true = Bool.true
is_true condition_false = Bool.false
is_true condition_unknown = Bool.false

-- `metav1.Condition`; `kind` is its `Type`.
pub record Condition : Type 0 where
  pub kind : String
  pub status : ConditionStatus
  pub reason : String
  pub message : String
  pub observed_generation : ℕ

-- `status` of a ToolGateway and of a ToolRoute. A Guard has no URL.
pub record Status : Type 0 where
  pub url : String
  pub conditions : List Condition

-- `corev1.EnvVar`. What stands beside a name and a plain value (`valueFrom`) is kept as it is.
pub record EnvVar : Type 0 where
  pub name : String
  pub value : String
  pub value_from : Option String

-- `corev1.EnvFromSource`, as far as it names its source.
pub record EnvFromSource : Type 0 where
  pub prefix : String
  pub config_map_ref : Option String
  pub secret_ref : Option String

pub record ToolGateway : Type 0 where
  pub key : Key
  pub generation : ℕ
  pub tool_gateway_class_name : String
  pub guardrails : List Key
  pub env : List EnvVar
  pub env_from : List EnvFromSource
  pub status : Status

pub record ToolGatewayClass : Type 0 where
  pub name : String
  pub annotations : List (String × String)
  pub controller : String

pub record Upstream : Type 0 where
  pub tool_server_ref : Option Key
  pub external : Option String

pub record ToolRoute : Type 0 where
  pub key : Key
  pub generation : ℕ
  pub tool_gateway_ref : Option Key
  pub upstream : Upstream
  pub tool_filter : Option ToolFilter
  pub status : Status

-- The port is an `int32` of the API, which is only handed on.
pub record ToolServer : Type 0 where
  pub key : Key
  pub port : ℕ
  pub path : String

pub record GuardPresidio : Type 0 where
  pub language : String
  pub score_thresholds : List (String × String)
  pub entity_actions : List (String × String)

pub record Guard : Type 0 where
  pub key : Key
  pub generation : ℕ
  pub provider_ref : Key
  pub mode : List String
  pub presidio : Option GuardPresidio
  pub conditions : List Condition

-- `presidio` is the `baseUrl` of the Presidio section, if the section is there.
pub record GuardrailProvider : Type 0 where
  pub key : Key
  pub kind : String
  pub presidio : Option String
