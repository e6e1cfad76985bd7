-- ===== src/CodeBuild/Builds.antt =====
-- Create and Update of imagebuild.go: the role and the project that a build needs, and its start.
pub mod Laws
use formae_plugin_aws.Prelude.Int.{ℤ, pos, ◌+ℤ◌, scale}
use formae_plugin_aws.Prelude.{
  ℕ, zero, suc, Bool, true, false, ◌&&◌, ◌||◌, not, Option, none, some, List, [], ◌∷◌, ◌++◌,
  if◌then◌else◌, Io, ◌⊎◌, inl, inr,
}
use formae_plugin_aws.Text.{Text, codes, ◌===◌, is_empty, contains}
use formae_plugin_aws.Go.{
  GoError, ApiError, new_error, wrap_error, Outcome, NoOutput, returned, panicked, succeed, fail,
  after, deref, unless_error, attempt, call,
}
use formae_plugin_aws.Sdk.{
  no_code, Operation, create, update, success, in_progress, ProgressResult, done_result,
  CreateRequest, UpdateRequest,
}
use formae_plugin_aws.Maps.{Map}
use formae_plugin_aws.Properties.{or_empty, unless_bad}
use formae_plugin_aws.Ecs.Timeout.{Time}
use formae_plugin_aws.CodeBuild.Client.{
  BuildInput, BuildOutputs, RepositoryRef, Project, CodeBuildClient, IamClient, ImageBuild,
}
use formae_plugin_aws.CodeBuild.Ids.{RequestState, encode_native_id, encode_request_id}
use formae_plugin_aws.CodeBuild.Input.{
  normalize_input, build_args_file, image_uri, parse_ecr_repository_uri, validate_input,
  compute_build_config_hash, resource_names, build_trust_policy, build_inline_policy,
}
use formae_plugin_aws.CodeBuild.Buildspec.{generate_buildspec}
use formae_plugin_aws.CodeBuild.Images.{outputs_json, tag_matches_digest}

-- Deadlines are sums of whole seconds: the minutes of the build and ten more.
abbrev deadline_of : Time → ℤ → Time
deadline_of now minutes = record now { seconds = now.seconds +ℤ (scale 60 minutes +ℤ pos 600) }

-- The rest of a call whose nil output panics.
abbrev pub wrapped : Text → {A : Type 0} → GoError → Outcome A
wrapped context e = fail (wrap_error context e)

-- if err := validateInput(in); err != nil { return ... }
abbrev pub unless_invalid {ℓ} :
    {W : Type ℓ} {B : Type 0} → Option GoError → Io W (Outcome B) → Io W (Outcome B)
unless_invalid (some e) k w = (wrapped (codes "ImageBuild: ") e, w)
unless_invalid none k w = k w

module _ {ℓ} {W : Type ℓ} (a : ImageBuild W) where
  -- The ARN of a role that is there.
  abbrev role_arn :
      {B : Type 0} → Option (Option Text) → (Text → Io W (Outcome B)) → Io W (Outcome B)
  role_arn none k w = (panicked, w)
  role_arn (some arn) k w = k (or_empty arn) w

  unfoldable pub put_policy : IamClient W → RepositoryRef → Text → Text → Text → Io W (Outcome Text)
  put_policy client ref role project arn =
      attempt
        (client.put_role_policy role (codes "formae-imagebuild-build")
          (build_inline_policy a ref project))
        (wrapped (codes "ImageBuild: putting role policy: ")) (λ w. (succeed arn, w))

  -- After the lookup of the role: it is there, or it is created, or the error stands.
  unfoldable pub role_after :
      IamClient W
      → Text
      → Option (Option (Option Text))
      → Option GoError
      → (Text → Io W (Outcome Text))
      → Io W (Outcome Text)
  role_after client role out none k w = deref out (λ r. role_arn r k) w
  role_after client role out (some e) k w =
      let made =
        call (client.create_role role (build_trust_policy a))
          (wrapped (codes "ImageBuild: creating service role: ")) (λ r. role_arn r k) w in
      if e.is_missing then made else (wrapped (codes "ImageBuild: getting service role: ") e, w)

  -- A role that the caller brings is left alone.
  unfoldable ensure_role :
      IamClient W → BuildInput → RepositoryRef → Text → Text → Io W (Outcome Text)
  ensure_role client input ref role project w =
      let asked = client.get_role role w in
      let ensured =
        after asked.0
          (λ out err. role_after client role out err (put_policy client ref role project))
          asked.1 in
      if not (is_empty input.service_role_arn) then (succeed input.service_role_arn, w) else ensured

  -- The race with the propagation of a new role.
  unfoldable pub is_assume_role_propagation_error : GoError → Bool
  is_assume_role_propagation_error e = elim e.api_error [
    | none ↦ false
    | some ae ↦
        ae.code === codes "InvalidInputException"
        && (contains (codes "cannot be assumed") (a.api_message e)
            || (contains (codes "not authorized to perform: sts:assumerole") (a.api_message e)
                || contains (codes "service role") (a.api_message e)))
  ]

  -- After a creation that is not the last one: done, or a pause and the next one, or its error.
  unfoldable pub after_creation :
      {B : Type 0} → Option GoError → Io W (Outcome B) → Io W (Outcome B) → Io W (Outcome B)
  unfolding is_assume_role_propagation_error
  after_creation none next k w = k w
  after_creation (some e) next k w =
      let again = next (a.sleep (pos 3000000000) w) in
      if is_assume_role_propagation_error e
      then again
      else (wrapped (codes "ImageBuild: creating build project: ") e, w)

  -- `for attempt := 1; ; attempt++`, by the attempts after this one: the last one ends it.
  unfoldable pub create_from :
      {B : Type 0} → CodeBuildClient W → Project → ℕ → Io W (Outcome B) → Io W (Outcome B)
  unfolding after_creation
  create_from client project zero k w =
      attempt (client.create_project project)
        (wrapped (codes "ImageBuild: creating build project: ")) k w
  create_from client project (suc left) k w =
      let sent = client.create_project project w in
      after sent.0 (λ out err. after_creation err (create_from client project left k) k) sent.1

  abbrev pub project_of : BuildInput → Text → Text → Project
  project_of input name role = record {
    name = name;
    buildspec = generate_buildspec;
    compute_type = input.compute_type;
    image = input.build_environment_image;
    service_role = role;
    timeout_minutes = input.timeout_minutes;
  }

  abbrev pub update_or_create :
      {B : Type 0} → CodeBuildClient W → Project → List Text → Io W (Outcome B) → Io W (Outcome B)
  update_or_create client project [] k = create_from client project 7 k
  update_or_create client project (found ∷ more) k =
      attempt (client.update_project project)
        (wrapped (codes "ImageBuild: updating build project: ")) k

  unfoldable pub ensure_project :
      {B : Type 0}
      → CodeBuildClient W
      → BuildInput
      → Text
      → Text
      → Io W (Outcome B)
      → Io W (Outcome B)
  unfolding create_from
  ensure_project client input name role k =
      call (client.batch_get_projects (name ∷ []))
        (wrapped (codes "ImageBuild: looking up build project: "))
        (λ found. update_or_create client (project_of input name role) found k)

  abbrev environment : RepositoryRef → BuildInput → List (Text × Text)
  environment ref input =
      (codes "DOCKERFILE_B64", a.base64 input.dockerfile)
      ∷ (codes "BUILD_ARGS_B64", a.base64 (build_args_file input.build_args))
      ∷ (codes "IMAGE_URI", image_uri ref.uri input.image_tag)
      ∷ (codes "ECR_REPOSITORY_URI", ref.uri)
      ∷ (codes "ECR_REGISTRY", ref.registry)
      ∷ []

  abbrev build_id : Option Text → Io W (Outcome Text)
  build_id none w = (fail (new_error (codes "ImageBuild: StartBuild did not return a build id")), w)
  build_id (some id) w = (succeed id, w)

  unfoldable dispatch_build :
      CodeBuildClient W → Text → RepositoryRef → BuildInput → Io W (Outcome Text)
  dispatch_build client project ref input =
      call (client.start_build project (environment ref input))
        (wrapped (codes "ImageBuild: starting build: ")) build_id

  -- The state of the poll that is to come, in the request id.
  abbrev started : Operation → BuildInput → RepositoryRef → Text → Text → Time → ProgressResult
  started op input ref prior id now = record {
    operation = op;
    operation_status = in_progress;
    request_id = encode_request_id a (record {
      operation = a.operation_text op;
      build_id = id;
      repo_uri = ref.uri;
      tag = input.image_tag;
      deadline = deadline_of now input.timeout_minutes;
      build_config_hash = compute_build_config_hash a input;
      prior_digest = prior;
    });
    native_id = encode_native_id ref.uri input.image_tag;
    status_message = [];
    error_code = no_code;
    resource_properties = none;
  }

  unfoldable provision :
      Operation → BuildInput → RepositoryRef → Text → Io W (Outcome ProgressResult)
  unfolding ensure_role dispatch_build
  provision op input ref prior =
      let names = resource_names a ref.uri input.image_tag in
      call a.code_build fail (λ builds. call a.iam fail (λ roles.
        call (ensure_role roles input ref names.1 names.0) fail (λ role.
          ensure_project builds input names.0 role (
            call (dispatch_build builds names.0 ref input) fail (λ id w.
              let clock = a.now w in (succeed (started op input ref prior id clock.0), clock.1))))))

  abbrev same_region : RepositoryRef → Bool
  same_region ref = is_empty a.region || ref.region === a.region

  unfoldable pub start_build : BuildInput → Operation → Text → Io W (Outcome ProgressResult)
  unfolding provision
  start_build input op prior =
      let n = normalize_input input in
      unless_invalid (validate_input a input) (
        unless_bad (parse_ecr_repository_uri a n.ecr_repository_uri)
          (wrapped (codes "ImageBuild: "))
          (λ ref w. if same_region ref then provision op n ref prior w else (
            fail (
                new_error (
                  codes "ImageBuild: ecrRepositoryUri region "
                  ++ (a.quote ref.region
                      ++ (codes " must match the target region " ++ a.quote a.region)))),
            w,
          )))

  unfoldable image_create : CreateRequest → Io W (Outcome ProgressResult)
  image_create request =
      unless_bad (a.decode_input request.properties)
        (wrapped (codes "ImageBuild: invalid Properties: ")) (λ input. start_build input create [])

  -- What a build gave is kept, with the tag as it is declared now.
  abbrev pub unchanged : UpdateRequest → BuildInput → BuildOutputs → ProgressResult
  unchanged request desired prior =
      done_result update request.native_id
        (some (a.codec.marshal (outputs_json (record prior { image_tag = desired.image_tag }))))

  abbrev no_outputs : BuildOutputs
  no_outputs = record {
    image_ref = [];
    image_digest = [];
    image_uri = [];
    image_tag = [];
    build_config_hash = [];
  }

  abbrev pub prior_of : Text → BuildOutputs
  prior_of [] = no_outputs
  prior_of (c ∷ s) = a.decode_outputs (c ∷ s)

  unfoldable pub rebuild_unless_same :
      UpdateRequest → BuildInput → BuildOutputs → Io W (Outcome ProgressResult)
  rebuild_unless_same request desired prior w =
      let rebuild = start_build desired update prior.image_digest in
      let asked =
        call (tag_matches_digest a request.native_id prior.image_digest) fail
          (λ matches w'.
            if matches then (succeed (unchanged request desired prior), w') else rebuild w')
          w in
      if not (is_empty prior.build_config_hash)
        && prior.build_config_hash === compute_build_config_hash a desired
      then asked
      else rebuild w

  unfoldable pub image_update : UpdateRequest → Io W (Outcome ProgressResult)
  image_update request =
      unless_bad (a.decode_input request.desired_properties)
        (wrapped (codes "ImageBuild: invalid DesiredProperties: "))
        (λ desired.
          unless_invalid (validate_input a desired)
            (rebuild_unless_same request desired (prior_of request.prior_properties)))
