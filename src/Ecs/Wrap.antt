-- ===== src/Ecs/Wrap.antt =====
-- pkg/cfres/ecs/parse.go: the ids of an accepted create or update, which carry what later polls need.
pub mod Laws
use formae_plugin_aws.Prelude.Int.{ℤ}
use formae_plugin_aws.Prelude.{Bool, true, false, Option, none, some, ◌++◌, if◌then◌else◌, Io}
use formae_plugin_aws.Text.{Text, codes, is_empty}
use formae_plugin_aws.Sdk.{Operation, create, update, in_progress, is_success, ProgressResult}
use formae_plugin_aws.Ecs.Names.{
  op_seg_create, op_seg_update, compose_request_id, pending_native_id,
}
use formae_plugin_aws.Ecs.Timeout.{Service}

-- A success is put back to in progress, with a message and without properties.
abbrev pub reopen : Text → ProgressResult → ProgressResult
reopen msg pr =
    if is_success pr.operation_status
    then record pr {
      operation_status = in_progress;
      resource_properties = none;
      status_message = msg;
    }
    else pr

-- The request id gets the segment and the second; an empty native id is filled in.
abbrev pub wrapped : Text → Operation → Text → Text → ℤ → ProgressResult → ProgressResult
wrapped seg op native_id msg seconds pr =
    let opened = reopen msg pr in
    record opened {
      request_id = compose_request_id seg seconds pr.request_id;
      native_id = if is_empty pr.native_id then native_id else pr.native_id;
      operation = op;
    }

module _ {ℓ} {W : Type ℓ} (s : Service W) where
  unfoldable pub wrap_for_create :
      Text → Text → Option ProgressResult → Io W (Option ProgressResult)
  wrap_for_create cluster service none w = (none, w)
  wrap_for_create cluster service (some pr) w = if is_empty pr.request_id then (some pr, w) else (
    some (
        wrapped op_seg_create create (pending_native_id cluster service)
          (codes "ECS registration complete; waiting for service to appear") (s.now w).0.seconds
          pr),
    (s.now w).1,
  )

  unfoldable pub wrap_for_update : Text → Option ProgressResult → Io W (Option ProgressResult)
  wrap_for_update native_id none w = (none, w)
  wrap_for_update native_id (some pr) w = if is_empty pr.request_id then (some pr, w) else (
    some (
        wrapped op_seg_update update native_id
          (codes "ECS update accepted; waiting for deployment to stabilize") (s.now w).0.seconds
          pr),
    (s.now w).1,
  )
