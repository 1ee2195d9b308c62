-- ===== src/Tests/Reconcilers.antt =====
-- The reconcilers at work in the small cluster.
use tool_gateway_agentgatewa.Kube.Types.{Key}
use tool_gateway_agentgatewa.Kube.Client.Logic.{Performs}
use tool_gateway_agentgatewa.Route.Succeeds
use tool_gateway_agentgatewa.Gateway.Reconcile as gateway
use tool_gateway_agentgatewa.Gateway.Reconciled.{IsGatewayReconcile, reconcile-IsGatewayReconcile}
use tool_gateway_agentgatewa.Route.Reconcile as route
use tool_gateway_agentgatewa.Route.Reconciled.{IsRouteReconcile, reconcile-IsRouteReconcile}
use tool_gateway_agentgatewa.Adapter.Reconcile as adapter
use tool_gateway_agentgatewa.Adapter.Reconciled.{IsGuardReconcile, reconcile-IsGuardReconcile}
use tool_gateway_agentgatewa.Tests.Cluster.{
  gateway_key, guard_key, route_key, cluster, parse_url, unmarshal, rendering,
}

reconcile-IsGatewayReconcile_example :
    Performs cluster
      (gateway.reconcile cluster unmarshal gateway_key)
      (IsGatewayReconcile cluster unmarshal gateway_key)
reconcile-IsGatewayReconcile_example = reconcile-IsGatewayReconcile cluster unmarshal gateway_key

reconcile-IsRouteReconcile_example :
    Performs cluster
      (route.reconcile cluster parse_url route_key)
      (IsRouteReconcile cluster parse_url route_key)
reconcile-IsRouteReconcile_example = reconcile-IsRouteReconcile cluster parse_url route_key

reconcile-IsGuardReconcile_example :
    Performs cluster
      (adapter.reconcile cluster rendering "adapter:1" guard_key)
      (IsGuardReconcile cluster rendering "adapter:1" guard_key)
reconcile-IsGuardReconcile_example =
    reconcile-IsGuardReconcile cluster rendering "adapter:1" guard_key

abbrev pii_ref : Key
pii_ref = record { namespace = ""; name = "pii" }
