-- ===== src/CodeBuild/Poll.antt =====
-- Status of imagebuild.go, and the outputs of a build that has succeeded.
pub mod Laws
use formae_plugin_aws.Prelude.Int.{ltb_ℤ, ℤ}
use formae_plugin_aws.Prelude.{
  Bool, true, false, ◌&&◌, ◌||◌, not, Option, none, some, List, [], ◌∷◌, ◌++◌, if◌then◌else◌, Io,
  ◌⊎◌, inl, inr, ltb,
}
use formae_plugin_aws.Text.{Text, codes, ◌===◌, is_empty}
use formae_plugin_aws.Go.{
  GoError, new_error, wrap_error, Outcome, returned, panicked, succeed, fail, call,
}
use formae_plugin_aws.Sdk.{
  no_code, Operation, create, update, OperationStatus, success, failure, in_progress,
  ProgressResult, StatusRequest,
}
use formae_plugin_aws.Maps.{Map, lookup, insert}
use formae_plugin_aws.Properties.{or_empty, unless_bad}
use formae_plugin_aws.Ecs.Timeout.{Time}
use formae_plugin_aws.CodeBuild.Client.{
  BuildOutputs, Build, BuildStatus, succeeded, running, ended, CodeBuildClient, ImageBuild,
}
use formae_plugin_aws.CodeBuild.Ids.{RequestState, encode_native_id, decode_request_id}
use formae_plugin_aws.CodeBuild.Input.{image_uri, or_default}
use formae_plugin_aws.CodeBuild.Images.{outputs_json, prune_prior_digest}

-- The exported variables by their names; a later one replaces an earlier one.
abbrev pub exported : List (Option Text × Option Text) → Map Text → Map Text
exported [] m = m
exported ((name, value) ∷ vs) m = exported vs (insert (or_empty name) (or_empty value) m)

abbrev value_at : Text → Map Text → Text
value_at key m = or_empty (lookup key m)

unfoldable pub build_outputs_from_exports :
    List (Option Text × Option Text) → RequestState → BuildOutputs ⊎ GoError
build_outputs_from_exports exports state =
    let values = exported exports [] in
    let digest = value_at (codes "IMAGE_DIGEST") values in
    if is_empty digest
    then inr (new_error (codes "build succeeded but did not export IMAGE_DIGEST"))
    else inl (record {
      image_ref =
          or_default (value_at (codes "IMAGE_REF") values)
            (state.repo_uri ++ (codes "@" ++ digest));
      image_digest = digest;
      image_uri =
          or_default (value_at (codes "IMAGE_URI") values) (image_uri state.repo_uri state.tag);
      image_tag = state.tag;
      build_config_hash = state.build_config_hash;
    })

-- time.Time.After
unfoldable pub is_after : Time → Time → Bool
is_after t u = ltb_ℤ u.seconds t.seconds || (not (ltb_ℤ t.seconds u.seconds) && ltb u.nanos t.nanos)

abbrev build_result :
    Operation → StatusRequest → RequestState → OperationStatus → Text → Option Text → ProgressResult
build_result op request state status msg properties = record {
  operation = op;
  operation_status = status;
  request_id = request.request_id;
  native_id = encode_native_id state.repo_uri state.tag;
  status_message = msg;
  error_code = no_code;
  resource_properties = properties;
}

module _ {ℓ} {W : Type ℓ} (a : ImageBuild W) where
  abbrev phase_of : Build → Text
  phase_of build = codes " (phase " ++ (or_empty build.current_phase ++ codes ")")

  -- The outputs of the build, after the manifest is pruned that the tag had before.
  unfoldable pub finish_build :
      Operation → StatusRequest → RequestState → BuildOutputs → Io W (Outcome ProgressResult)
  finish_build op request state outputs w =
      let done : Io W (Outcome ProgressResult) = λ w'. (
        succeed (
            build_result op request state success []
              (some (a.codec.marshal (outputs_json outputs)))),
        w',
      ) in
      if not (is_empty state.prior_digest) && not (state.prior_digest === outputs.image_digest)
      then prune_prior_digest a state.repo_uri state.prior_digest done w
      else done w

  unfoldable pub build_progress :
      Operation → StatusRequest → RequestState → Build → Io W (Outcome ProgressResult)
  build_progress op request state build w = elim build.build_status [
    | succeeded ↦ elim (build_outputs_from_exports build.exports state) [
      | inr e ↦ (succeed (build_result op request state failure e.message none), w)
      | inl outputs ↦ finish_build op request state outputs w
    ]
    | running ↦
        let clock = a.now w in
        if is_after clock.0 state.deadline
        then (
          succeed (
              build_result op request state failure
                (codes "timeout waiting for build "
                  ++ (a.quote state.build_id
                      ++ (codes " to complete (deadline "
                          ++ (a.format_time state.deadline ++ codes ")"))))
                none),
          clock.1,
        )
        else (
          succeed (
              build_result op request state in_progress
                (codes "build in progress" ++ phase_of build) none),
          clock.1,
        )
    | ended status ↦ (
      succeed (
          build_result op request state failure
            (codes "build "
              ++ (a.quote state.build_id ++ (codes " " ++ (status ++ phase_of build))))
            none),
      w,
    )
  ]

  abbrev pub operation_of : RequestState → Operation
  operation_of state = if state.operation === a.operation_text update then update else create

  abbrev pub first_build : StatusRequest → RequestState → List Build → Io W (Outcome ProgressResult)
  first_build request state [] w = (
    fail (new_error (codes "ImageBuild: build " ++ (a.quote state.build_id ++ codes " not found"))),
    w,
  )
  first_build request state (build ∷ builds) w =
      build_progress (operation_of state) request state build w

  unfoldable pub image_status : StatusRequest → Io W (Outcome ProgressResult)
  image_status request = unless_bad (decode_request_id a request.request_id) fail (λ state.
      call a.code_build fail (λ client.
        call (client.batch_get_builds (state.build_id ∷ []))
          (λ e. fail (wrap_error (codes "ImageBuild: getting build status: ") e))
          (first_build request state)))
