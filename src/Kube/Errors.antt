-- ===== src/Kube/Errors.antt =====
-- Go's `error` values as the controllers build and inspect them, and fallible results.
use tool_gateway_agentgatewa.Prelude.{String, Bool, true, false, [], ◌∷◌}
use tool_gateway_agentgatewa.Prelude.Text.{concat}

-- The sentinel errors: toolgateway_reconciler.go, class_ownership.go, guard_static_config.go.
pub data Sentinel : Type 0 where
  guard_not_found guard_not_ready no_default_tool_gateway unsupported_provider invalid_config :
      Sentinel

-- The text of each sentinel.
abbrev pub sentinel_message : Sentinel → String
sentinel_message guard_not_found = "guard not found"
sentinel_message guard_not_ready = "guard not ready"
sentinel_message no_default_tool_gateway = "no default ToolGateway found in namespace tool-gateway"
sentinel_message unsupported_provider = "unsupported provider type"
sentinel_message invalid_config = "invalid guard config"

-- `not_found` and `failure` come from the client. `wrapped` is `fmt.Errorf` with one `%w`: the text
-- before it, the error, and the text behind it.
pub data Error : Type 0 where
  sentinel : Sentinel → Error
  not_found : String → Error
  failure : String → Error
  wrapped : String → Error → String → Error

-- `err.Error()`
unfoldable pub message : Error → String
message (sentinel s) = sentinel_message s
message (not_found m) = m
message (failure m) = m
message (wrapped before e after) = concat (before ∷ message e ∷ after ∷ [])

-- `apierrors.IsNotFound(err)`, which looks through `%w`.
unfoldable pub is_not_found : Error → Bool
is_not_found (not_found m) = true
is_not_found (wrapped before e after) = is_not_found e
is_not_found (sentinel s) = false
is_not_found (failure m) = false

abbrev pub same_sentinel : Sentinel → Sentinel → Bool
same_sentinel guard_not_found guard_not_found = true
same_sentinel guard_not_ready guard_not_ready = true
same_sentinel no_default_tool_gateway no_default_tool_gateway = true
same_sentinel unsupported_provider unsupported_provider = true
same_sentinel invalid_config invalid_config = true
same_sentinel _ _ = false

-- `errors.Is(err, target)` for a sentinel `target`.
unfoldable pub errors_is : Error → Sentinel → Bool
errors_is (sentinel s) t = same_sentinel s t
errors_is (wrapped before e after) t = errors_is e t
errors_is (not_found m) t = false
errors_is (failure m) t = false

pub data Result {ℓ} (A : Type ℓ) : Type ℓ where
  ok : A → Result A
  err : Error → Result A

infixl 5 ◌>>=◌
abbrev pub ◌>>=◌ {ℓ κ} : {A : Type ℓ} {B : Type κ} → Result A → (A → Result B) → Result B
ok a >>= f = f a
err e >>= f = err e

-- `if err != nil { return fmt.Errorf("text: %w", err) }`
abbrev pub wrap_error {ℓ} : {A : Type ℓ} → String → Result A → Result A
wrap_error text (ok a) = ok a
wrap_error text (err e) = err (wrapped text e "")
