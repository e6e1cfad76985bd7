-- ===== src/CodeBuild/Client.antt =====
-- The data of imagebuild.go and build.go, the interfaces to CodeBuild, ECR and IAM, and what the
-- provisioner ImageBuild uses of packages outside the repository.
use formae_plugin_aws.Prelude.Int.{ℤ}
use formae_plugin_aws.Prelude.{Bool, Option, List, Io, ◌⊎◌}
use formae_plugin_aws.Text.{Text}
use formae_plugin_aws.Go.{GoError, Outcome, NoOutput}
use formae_plugin_aws.Sdk.{Operation}
use formae_plugin_aws.Json.{Codec}
use formae_plugin_aws.Maps.{Map}
use formae_plugin_aws.Ecs.Timeout.{Time}

-- imageBuildInput
pub record BuildInput : Type 0 where
  pub ecr_repository_uri : Text
  pub image_tag : Text
  pub dockerfile : Text
  pub build_args : Map Text
  pub compute_type : Text
  pub timeout_minutes : ℤ
  pub service_role_arn : Text
  pub build_environment_image : Text

-- imageBuildOutputs
pub record BuildOutputs : Type 0 where
  pub image_ref : Text
  pub image_digest : Text
  pub image_uri : Text
  pub image_tag : Text
  pub build_config_hash : Text

-- ecrRepositoryRef
pub record RepositoryRef : Type 0 where
  pub account_id : Text
  pub region : Text
  pub repo_name : Text
  pub registry : Text
  pub uri : Text

-- codebuildtypes.StatusType, as far as the code tells its values apart
pub data BuildStatus : Type 0 where
  succeeded running : BuildStatus
  ended : Text → BuildStatus

-- codebuildtypes.Build; the exported variables are names with values.
pub record Build : Type 0 where
  pub id : Option Text
  pub build_status : BuildStatus
  pub current_phase : Option Text
  pub exports : List (Option Text × Option Text)

-- The inputs of CreateProject and UpdateProject, which are alike.
pub record Project : Type 0 where
  pub name : Text
  pub buildspec : Text
  pub compute_type : Text
  pub image : Text
  pub service_role : Text
  pub timeout_minutes : ℤ

-- Environment variables are names with values.
pub record CodeBuildClient {ℓ} (W : Type ℓ) : Type ℓ where
  -- the names of the projects that are found
  pub batch_get_projects : List Text → Io W (Outcome (List Text))
  pub create_project : Project → Io W (Outcome NoOutput)
  pub update_project : Project → Io W (Outcome NoOutput)
  pub delete_project : Text → Io W (Outcome NoOutput)
  -- the id of the build, if the output has a build with one
  pub start_build : Text → List (Text × Text) → Io W (Outcome (Option Text))
  pub batch_get_builds : List Text → Io W (Outcome (List Build))
  pub list_builds_for_project : Text → Io W (Outcome (List Text))
  pub stop_build : Option Text → Io W (Outcome NoOutput)

pub data ImageId : Type 0 where
  by_tag by_digest : Text → ImageId

pub record ImageDetail : Type 0 where
  pub image_digest : Option Text
  pub image_tags : List Text

-- ecrtypes.ImageFailure, and whether its code is ImageNotFound
pub record ImageFailure : Type 0 where
  pub is_image_not_found : Bool
  pub failure_code : Text
  pub failure_reason : Option Text

-- The calls name a repository and an image.
pub record EcrClient {ℓ} (W : Type ℓ) : Type ℓ where
  pub describe_images : Text → ImageId → Io W (Outcome (List ImageDetail))
  pub batch_delete_image : Text → ImageId → Io W (Outcome (List ImageFailure))

-- A role of an output is a pointer, and its ARN is one.
pub record IamClient {ℓ} (W : Type ℓ) : Type ℓ where
  pub get_role : Text → Io W (Outcome (Option (Option Text)))
  -- the name, and the trust policy
  pub create_role : Text → Text → Io W (Outcome (Option (Option Text)))
  -- the role, the name of the policy, and the policy
  pub put_role_policy : Text → Text → Text → Io W (Outcome NoOutput)
  pub delete_role_policy : Text → Text → Io W (Outcome NoOutput)
  pub delete_role : Text → Io W (Outcome NoOutput)

-- The struct ImageBuild, with regular expressions by what they match, a hash, base64, encoding/json,
-- and the RFC 3339 form of a time.
pub record ImageBuild {ℓ} (W : Type ℓ) : Type ℓ where
  pub region : Text
  pub code_build : Io W (Outcome (CodeBuildClient W))
  pub ecr : Io W (Outcome (EcrClient W))
  pub iam : Io W (Outcome (IamClient W))
  pub now : Io W Time
  -- sleeping for nanoseconds
  pub sleep : ℤ → W → W
  pub codec : Codec
  pub decode_input : Text → BuildInput ⊎ GoError
  -- what json.Unmarshal leaves in the outputs, whether or not it fails
  pub decode_outputs : Text → BuildOutputs
  -- the account, the region and the repository of a URI that ecrRepositoryURIPattern matches
  pub match_repository_uri : Text → Option (Text × (Text × Text))
  pub matches_image_tag : Text → Bool
  pub matches_build_arg_key : Text → Bool
  -- the lower case of the message of the first API error in a chain
  pub api_message : GoError → Text
  pub sha256_hex : Text → Text
  pub base64 : Text → Text
  pub quote : Text → Text
  pub operation_text : Operation → Text
  pub format_time : Time → Text
  pub parse_time : Text → Option Time
  pub time_error : Text → GoError
