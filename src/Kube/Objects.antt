-- ===== src/Kube/Objects.antt =====
-- The objects that the controllers create, patch and delete.
use tool_gateway_agentgatewa.Prelude.{ℕ, String, Bool, List, Option}
use tool_gateway_agentgatewa.Kube.Types.{Key}
use tool_gateway_agentgatewa.Kube.Json.{Json}

pub data Kind : Type 0 where
  gateway http_route parameters policy backend config_map deployment service : Kind

-- `gatewayv1.Listener`, with `AllowedRoutes.Namespaces.From`.
pub record Listener : Type 0 where
  pub name : String
  pub protocol : String
  pub port : ℕ
  pub allowed_from : String

-- `gatewayv1.LocalParametersReference`
pub record ParametersRef : Type 0 where
  pub group : String
  pub kind : String
  pub name : String

-- `gatewayv1.GatewaySpec`
pub record GatewaySpec : Type 0 where
  pub gateway_class_name : String
  pub listeners : List Listener
  pub infrastructure : Option ParametersRef

pub record BackendRef : Type 0 where
  pub group : String
  pub kind : String
  pub key : Key

pub record PathMatch : Type 0 where
  pub kind : String
  pub value : String

pub record HttpRouteRule : Type 0 where
  pub backend_refs : List BackendRef
  pub matches : List PathMatch

-- `gatewayv1.HTTPRouteSpec`
pub record HttpRouteSpec : Type 0 where
  pub parent_refs : List Key
  pub rules : List HttpRouteRule

pub record Probe : Type 0 where
  pub path : String
  pub port : ℕ
  pub initial_delay_seconds : ℕ
  pub period_seconds : ℕ

pub record VolumeMount : Type 0 where
  pub name : String
  pub mount_path : String
  pub read_only : Bool

pub record Container : Type 0 where
  pub name : String
  pub image : String
  pub image_pull_policy : String
  pub args : List String
  pub ports : List (String × ℕ)
  pub env : List (String × String)
  pub volume_mounts : List VolumeMount
  pub readiness_probe : Probe
  pub liveness_probe : Probe

-- `corev1.PodSpec`; a volume is its name and the name of its ConfigMap.
pub record PodSpec : Type 0 where
  pub automount_service_account_token : Bool
  pub containers : List Container
  pub volumes : List (String × String)

-- `appsv1.DeploymentSpec`. Annotations that others put on the pod template stay there.
pub record DeploymentSpec : Type 0 where
  pub replicas : Option ℕ
  pub selector : List (String × String)
  pub template_labels : List (String × String)
  pub template_annotations : List (String × String)
  pub template_spec : Option PodSpec

pub record ServicePort : Type 0 where
  pub name : String
  pub port : ℕ
  pub target_port : ℕ
  pub protocol : String
  pub app_protocol : Option String

pub record ServiceSpec : Type 0 where
  pub selector : List (String × String)
  pub ports : List ServicePort

-- What an object of each kind holds besides its metadata. `none`: the zero value of a spec.
abbrev pub Content : Kind → Type 0
Content Kind.gateway = Option GatewaySpec
Content Kind.http_route = Option HttpRouteSpec
Content Kind.parameters = Json
Content Kind.policy = Json
Content Kind.backend = Json
Content Kind.config_map = List (String × String)
Content Kind.deployment = DeploymentSpec
Content Kind.service = ServiceSpec

-- The kind and the key of the object that controls another.
pub data OwnerKind : Type 0 where
  tool_gateway tool_route guard : OwnerKind

abbrev pub Owner : Type 0
Owner = OwnerKind × Key

-- An object as the client hands it to a mutation and takes it back.
pub record Object (k : Kind) : Type 0 where
  pub owner : Option Owner
  pub content : Content k

-- `controllerutil.OperationResult`
pub data Operation : Type 0 where
  unchanged created updated : Operation
