-- ===== src/Gateway/Routing.antt =====
-- internal/gateway/routing: service.go and decision.go.
use simiclaw.Base.{String, Option, none, some, if◌then◌else◌}
use simiclaw.Base.Result.{Result, ok, err}
use simiclaw.Base.Text.{is_empty}
use simiclaw.Gateway.Model.{NormalizedIngress, BindingContext, RouteDecision}
use simiclaw.Gateway.Bindings.Resolver.{payload_type_override}
use simiclaw.Runtime.Payload.{Registry, resolve_plan}

-- payloadTypeFor
unfoldable pub payload_type_for : NormalizedIngress → BindingContext → String
unfolding payload_type_override
payload_type_for ingress binding =
    let override = payload_type_override binding.metadata in
    if is_empty override then ingress.payload.type else override

-- Resolve
unfoldable pub resolve_route :
    Option Registry → NormalizedIngress → BindingContext → Result String RouteDecision
unfolding payload_type_for resolve_plan
resolve_route none ingress binding = err "payload registry unavailable"
resolve_route (some payloads) ingress binding =
    let payload_type = payload_type_for ingress binding in
    let plan = resolve_plan payloads payload_type in
    ok (record {
      run_mode = plan.run_mode;
      payload_type = payload_type;
      suppress_output = plan.suppress_output;
      metadata = binding.metadata;
    })
