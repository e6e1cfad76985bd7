-- ===== src/CodeBuild/Deletion.antt =====
-- Delete of imagebuild.go: builds that run are stopped, and the project, the pushed image and the
-- plugin's own role go. What is gone already is a success.
use formae_plugin_aws.Prelude.{Bool, true, false, none, some, List, [], ◌∷◌, if◌then◌else◌, Io}
use formae_plugin_aws.Text.{Text, codes}
use formae_plugin_aws.Go.{wrap_error, Outcome, succeed, fail, after, deref, call}
use formae_plugin_aws.Sdk.{
  delete, ProgressResult, done_result, DeleteRequest, ListRequest, ListResult,
}
use formae_plugin_aws.Properties.{unless_bad}
use formae_plugin_aws.CodeBuild.Client.{
  Build, BuildStatus, running, CodeBuildClient, IamClient, ImageBuild,
}
use formae_plugin_aws.CodeBuild.Ids.{parse_native_id}
use formae_plugin_aws.CodeBuild.Input.{resource_names}
use formae_plugin_aws.CodeBuild.Images.{delete_pushed_image, present_error}

abbrev is_running : BuildStatus → Bool
is_running running = true
is_running _ = false

module _ {ℓ} {W : Type ℓ} where
  -- A call whose error counts unless it says that there is nothing.
  unfoldable unless_present :
      {A B : Type 0} → Io W (Outcome A) → Text → Io W (Outcome B) → Io W (Outcome B)
  unless_present m context k w =
      after (m w).0
        (λ out err. elim (present_error err) [
          | some e ↦ λ w'. (fail (wrap_error context e), w')
          | none ↦ k
        ])
        (m w).1

  -- Each build that runs is told to stop, whatever comes of it.
  unfoldable stop_builds :
      {B : Type 0} → CodeBuildClient W → List Build → Io W (Outcome B) → Io W (Outcome B)
  stop_builds client [] k w = k w
  stop_builds client (b ∷ bs) k w =
      let rest = stop_builds client bs k in
      let told = client.stop_build b.id w in
      if is_running b.build_status then after told.0 (λ out err. rest) told.1 else rest w

  abbrev stop_listed :
      {B : Type 0} → CodeBuildClient W → List Text → Io W (Outcome B) → Io W (Outcome B)
  stop_listed client [] k w = k w
  stop_listed client (id ∷ ids) k w =
      let asked = client.batch_get_builds (id ∷ ids) w in
      after asked.0
        (λ out err. elim err [
          | some e ↦ k
          | none ↦ deref out (λ builds. stop_builds client builds k)
        ])
        asked.1

  unfoldable stop_in_flight_builds :
      {B : Type 0} → CodeBuildClient W → Text → Io W (Outcome B) → Io W (Outcome B)
  unfolding stop_builds
  stop_in_flight_builds client project k w =
      let listed = client.list_builds_for_project project w in
      after listed.0
        (λ out err. elim err [ some e ↦ k | none ↦ deref out (λ ids. stop_listed client ids k) ])
        listed.1

  -- The plugin's own role, if the lookup finds it; any error of the lookup means that it does not.
  unfoldable delete_internal_role :
      {B : Type 0} → IamClient W → Text → Io W (Outcome B) → Io W (Outcome B)
  unfolding unless_present
  delete_internal_role client role k w =
      let asked = client.get_role role w in
      after asked.0
        (λ out err. elim err [
          | some e ↦ k
          | none ↦
              unless_present (client.delete_role_policy role (codes "formae-imagebuild-build"))
                (codes "ImageBuild: deleting role policy: ")
                (unless_present (client.delete_role role) (codes "ImageBuild: deleting role: ") k)
        ])
        asked.1

module _ {ℓ} {W : Type ℓ} (a : ImageBuild W) where
  unfoldable delete_all :
      DeleteRequest → Text → Text → CodeBuildClient W → IamClient W → Io W (Outcome ProgressResult)
  unfolding stop_in_flight_builds delete_internal_role
  delete_all request uri tag builds roles =
      let names = resource_names a uri tag in
      stop_in_flight_builds builds names.0 (
        unless_present (builds.delete_project names.0)
          (codes "ImageBuild: deleting build project: ")
          (delete_pushed_image a uri tag (
            delete_internal_role roles names.1
              (λ w. (succeed (done_result delete request.native_id none), w)))))

  unfoldable image_delete : DeleteRequest → Io W (Outcome ProgressResult)
  image_delete request = unless_bad (parse_native_id a request.native_id) fail (λ (uri, tag).
      call a.code_build fail
        (λ builds. call a.iam fail (λ roles. delete_all request uri tag builds roles)))

  unfoldable image_list : ListRequest → Io W (Outcome ListResult)
  image_list request w = (succeed (record { native_ids = []; next_page_token = none }), w)
