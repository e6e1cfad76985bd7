-- ===== src/Ecs/Wrap/Laws.antt =====
-- The ids of an accepted create or update are those that later polls read.
use formae_plugin_aws.Prelude.{◌≡◌, ◌≢◌, refl, inl, false, some, [], ◌∷◌, arith}
use formae_plugin_aws.Text.{Text, codes, is_empty}
use formae_plugin_aws.Text.Split.{Lacks}
use formae_plugin_aws.Text.Decimal.{IsInt64}
use formae_plugin_aws.Sdk.{
  create, OperationStatus, success, failure, in_progress, pending, no_status, ProgressResult,
}
use formae_plugin_aws.Ecs.Names.{
  op_seg_create, parse_composite, parse_cluster_and_service, pending_native_id,
}
use formae_plugin_aws.Ecs.Names.RoundTrip.{
  parse_composite-compose_request_id, pending_native_id_lem,
}
use formae_plugin_aws.Ecs.Timeout.{Service}
use formae_plugin_aws.Ecs.Wrap.{wrapped, reopen, wrap_for_create}

reopen-open :
    (msg : Text) (pr : ProgressResult) (status : OperationStatus)
    → pr.operation_status ≡ status
    → (reopen msg pr).operation_status ≢ success
reopen-open msg pr success e = rw e (λ h. ground arith)
reopen-open msg pr failure e = rw e (λ h. ground arith)
reopen-open msg pr in_progress e = rw e (λ h. ground arith)
reopen-open msg pr pending e = rw e (λ h. ground arith)
reopen-open msg pr no_status e = rw e (λ h. ground arith)

not_empty : (s : Text) → s ≢ [] → is_empty s ≡ false
not_empty [] h = absurd (h refl)
not_empty (x ∷ xs) h = refl

module _ {ℓ} {W : Type ℓ} (s : Service W) where
  -- A create that Cloud Control accepted with a token and without an identifier comes back
  -- unfinished. Its request id is parsed into the create, the second and the token, and its native id
  -- into the cluster and the service, if both are not empty and the cluster has no bar.
  pub wrap_for_create_lem :
      (cluster service : Text) (pr : ProgressResult) (w : W)
      → pr.request_id ≢ []
      → pr.native_id ≡ []
      → IsInt64 (s.now w).0.seconds
      → Lacks b'|' cluster
      → cluster ≢ []
      → service ≢ []
      → (out : ProgressResult) × (((wrap_for_create s cluster service (some pr) w).0 ≡ some out)
          × ((out.operation_status ≢ success)
              × ((parse_composite out.request_id
                    ≡ some (record {
                      op = create;
                      unix_start = (s.now w).0.seconds;
                      ccapi_token = pr.request_id;
                    }))
                  × (parse_cluster_and_service out.native_id
                      ≡ some (record { cluster = cluster; service = service })))))
  unfolding wrap_for_create
  wrap_for_create_lem cluster service pr w token missing fits plain some_cluster some_service = (
    wrapped op_seg_create create (pending_native_id cluster service)
        (codes "ECS registration complete; waiting for service to appear") (s.now w).0.seconds pr,
    (
      rw (not_empty pr.request_id token) refl,
      (
        reopen-open _ pr pr.operation_status refl,
        (
          parse_composite-compose_request_id create (s.now w).0.seconds pr.request_id (inl refl)
              fits,
          rw missing (pending_native_id_lem cluster service plain some_cluster some_service),
        ),
      ),
    ),
  )
