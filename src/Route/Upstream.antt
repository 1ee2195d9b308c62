-- ===== src/Route/Upstream.antt =====
-- internal/controller/toolroute_reconciler.go: `resolveRouteUpstream`. `url.Parse` is a parameter,
-- which gives the parts of the URL that the code asks for.
use tool_gateway_agentgatewa.Prelude.{
  ℕ, String, not, ◌&&◌, ◌||◌, [], ◌∷◌, Option, none, some, str_eq, ltb, if◌then◌else◌,
}
use tool_gateway_agentgatewa.Prelude.Text.{concat}
use tool_gateway_agentgatewa.Kube.Errors.{failure, wrapped, Result, ok, err, ◌>>=◌, wrap_error}
use tool_gateway_agentgatewa.Kube.Types.{Key, resolve_ref, ToolRoute, ToolServer}
use tool_gateway_agentgatewa.Kube.Client
use tool_gateway_agentgatewa.Kube.Client.{Env, Act, pure, check, query}
use tool_gateway_agentgatewa.Resources.{tool_server_host}
use tool_gateway_agentgatewa.Route.Numbers.{ℤ, pos, negsuc, atoi, decimal}

-- `u.Scheme`, `u.Hostname()`, `u.Port()` and `u.Path` of a `*url.URL`.
pub record Url : Type 0 where
  pub scheme : String
  pub hostname : String
  pub port : String
  pub path : String

-- The MCP target: `host`, `port` and `path`.
pub record Target : Type 0 where
  pub host : String
  pub port : ℕ
  pub path : String

abbrev pub default_to : String → String → String
default_to fallback s = if str_eq s "" then fallback else s

unfoldable pub tool_server_target : ToolServer → Target
tool_server_target ts = record {
  host = tool_server_host ts.key;
  port = ts.port;
  path = default_to "/mcp" ts.path;
}

abbrev pub port_range_error : ℤ → Result ℕ
port_range_error n = err (
    failure (concat ("invalid external.url port " ∷ decimal n ∷ ": must be in range 1-65535" ∷ [])))

-- `n < 1 || n > 65535`, and `int32(n)`, which keeps such an `n`.
unfoldable pub check_port : ℤ → Result ℕ
check_port (pos n) = if ltb n 1 || ltb 65535 n then port_range_error (pos n) else ok n
check_port (negsuc n) = port_range_error (negsuc n)

unfoldable pub url_port : Url → Result ℕ
url_port u =
    if str_eq u.port ""
    then ok (if str_eq u.scheme "https" then 443 else 80)
    else do n ← wrap_error "invalid external.url port: " (atoi u.port); check_port n

-- `%q` only adds quotes to a scheme, since `url.Parse` accepts letters, digits and `+-.` in one.
unfoldable pub url_target : Url → Result Target
url_target u =
    if not (str_eq u.scheme "http") && not (str_eq u.scheme "https")
    then err (
        failure
          (concat ("invalid external.url scheme \"" ∷ u.scheme ∷ "\": must be http or https" ∷ [])))
    else if str_eq u.hostname ""
    then err (failure "invalid external.url: hostname is empty")
    else do
      p ← url_port u
      ok (record { host = u.hostname; port = p; path = default_to "/" u.path })

module _ (parse_url : String → Result Url) where
  unfoldable pub external_target : String → Result Target
  external_target url = do u ← wrap_error "invalid external.url: " (parse_url url); url_target u

  module _ (env : Env) where
    unfoldable pub tool_server_upstream : Key → Act env (Result Target)
    tool_server_upstream ref = Client.◌>>=◌ (query (env.get_tool_server ref)) λ found.
        check found
          (λ e. pure (
            err (
              wrapped
                (concat
                  ("failed to resolve ToolServer " ∷ ref.namespace ∷ "/" ∷ ref.name ∷ ": " ∷ []))
                e "")))
          (λ ts. pure (ok (tool_server_target ts)))

    -- The `switch`: a reference to a ToolServer comes first.
    unfoldable pub resolve_upstream : String → Option Key → Option String → Act env (Result Target)
    resolve_upstream namespace (some ref) external =
        tool_server_upstream (resolve_ref ref namespace)
    resolve_upstream namespace none (some url) = pure (external_target url)
    resolve_upstream namespace none none =
        pure (err (failure "upstream has neither toolServerRef nor external set"))

    unfoldable pub resolve_route_upstream : ToolRoute → Act env (Result Target)
    resolve_route_upstream route =
        resolve_upstream route.key.namespace route.upstream.tool_server_ref route.upstream.external
