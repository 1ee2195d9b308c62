-- ===== src/Route/Bounds.antt =====
-- What the targets of external URLs look like.
use mathlib.Core.Path.{subst}
use tool_gateway_agentgatewa.Prelude.{
  ℕ, String, ◌≤◌, ◌≡◌, ◌≢◌, Bool, true, false, not, ◌&&◌, str_eq, if◌then◌else◌, if-holds, if-true,
  inl, inr, arith,
}
use tool_gateway_agentgatewa.Kube.Errors.{Result, ok, wrap_error}
use tool_gateway_agentgatewa.Kube.Results.{bind-ok, guard-ok, ok-injective, str_eq-false}
use tool_gateway_agentgatewa.Route.Numbers.{ℤ, pos, negsuc, atoi}
use tool_gateway_agentgatewa.Route.Upstream.{
  Url, Target, default_to, check_port, url_port, url_target, external_target,
}

-- A target that the gateway can dial.
pub record IsDialable (t : Target) : Type 0 where
  pub has_host : t.host ≢ ""
  pub port_from : 1 ≤ t.port
  pub port_to : t.port ≤ 65535
  pub has_path : t.path ≢ ""

abbrev IsPort : ℕ → Type 0
IsPort p = (1 ≤ p) × (p ≤ 65535)

check_port-IsPort : (n : ℤ) (p : ℕ) → check_port n ≡ ok p → IsPort p
unfolding check_port
check_port-IsPort (pos n) p h = ground arith
check_port-IsPort (negsuc n) p h = cc

fallback-IsPort : (b : Bool) → IsPort (if b then 443 else 80)
fallback-IsPort true = omega arith
fallback-IsPort false = omega arith

url_port-IsPort : (u : Url) (p : ℕ) → url_port u ≡ ok p → IsPort p
unfolding url_port
url_port-IsPort u p h = elim (if-true (str_eq u.port "") h) [
  | inl (_, e) ↦ subst IsPort (ok-injective e) (fallback-IsPort (str_eq u.scheme "https"))
  | inr (_, e) ↦
      let (n, _, c) =
        bind-ok (wrap_error "invalid external.url port: " (atoi u.port)) {f = check_port} e in
      check_port-IsPort n p c
]

default_to-nonempty : (fallback s : String) → fallback ≢ "" → default_to fallback s ≢ ""
default_to-nonempty fallback s h = if-holds (λ r. r ≢ "") (str_eq s "") (λ _. h) (str_eq-false s "")

url_target-IsDialable : (u : Url) (t : Target) → url_target u ≡ ok t → IsDialable t
unfolding url_target
url_target-IsDialable u t h =
    let (_, h1) = guard-ok (not (str_eq u.scheme "http") && not (str_eq u.scheme "https")) _ h in
    let (named, h2) = guard-ok (str_eq u.hostname "") _ h1 in
    let (p, port, h3) = bind-ok (url_port u) h2 in
    subst IsDialable (ok-injective h3) (record {
      has_host = str_eq-false u.hostname "" named;
      port_from = (url_port-IsPort u p port).0;
      port_to = (url_port-IsPort u p port).1;
      has_path = default_to-nonempty "/" u.path (λ e. cc);
    })

-- Whatever `url.Parse` makes of the text, an external upstream that is accepted has a host, a path and a port between 1 and 65535.
pub external_target-IsDialable :
    (parse_url : String → Result Url) (url : String) (t : Target)
    → external_target parse_url url ≡ ok t
    → IsDialable t
unfolding external_target
external_target-IsDialable parse_url url t h =
    let (u, _, e) =
      bind-ok (wrap_error "invalid external.url: " (parse_url url)) {f = url_target} h in
    url_target-IsDialable u t e
