-- ===== src/Examples/Images.antt =====
-- A build that runs, in an account whose creations of projects are counted.
use formae_plugin_aws.Prelude.Int.{pos}
use formae_plugin_aws.Prelude.{
  ℕ, suc, ◌+◌, ◌≤◌, ◌≡◌, refl, inl, arith, none, some, ◌∷◌, [], true, Io,
}
use formae_plugin_aws.Text.{codes}
use formae_plugin_aws.Go.{Outcome, succeed, fail, new_error, no_output}
use formae_plugin_aws.Sdk.{StatusRequest}
use formae_plugin_aws.Json.{null}
use formae_plugin_aws.Ecs.Timeout.{Time}
use formae_plugin_aws.CodeBuild.Client.{
  BuildInput, BuildOutputs, CodeBuildClient, EcrClient, IamClient, ImageBuild, running,
}
use formae_plugin_aws.CodeBuild.Ids.{RequestState, encode_request_id, decode_request_id}
use formae_plugin_aws.CodeBuild.Ids.Laws.{decode_request_id-encode_request_id}
use formae_plugin_aws.CodeBuild.Poll.{image_status}
use formae_plugin_aws.CodeBuild.Poll.Laws.{Sound, image_status-Sound}
use formae_plugin_aws.CodeBuild.Builds.{ensure_project}
use formae_plugin_aws.CodeBuild.Builds.Laws.{Counts, ensure_project-calls}

abbrev a_time : Time
a_time = record { seconds = pos 1700000000; nanos = 0 }

abbrev an_input : BuildInput
an_input = record {
  ecr_repository_uri = codes "1.dkr.ecr.r.amazonaws.com/web";
  image_tag = codes "v1";
  dockerfile = codes "FROM scratch";
  build_args = [];
  compute_type = [];
  timeout_minutes = pos 0;
  service_role_arn = [];
  build_environment_image = [];
}

abbrev some_outputs : BuildOutputs
some_outputs = record {
  image_ref = [];
  image_digest = codes "sha256:d";
  image_uri = [];
  image_tag = codes "v1";
  build_config_hash = codes "h";
}

abbrev a_builder : CodeBuildClient ℕ
a_builder = record {
  batch_get_projects = λ _ w. (succeed [], w);
  create_project = λ _ w. (fail (new_error (codes "no role")), suc w);
  update_project = λ _ w. (succeed no_output, w);
  delete_project = λ _ w. (succeed no_output, w);
  start_build = λ _ _ w. (succeed (some (codes "b")), w);
  batch_get_builds = λ _ w. (
    succeed (
        record { id = some (codes "b"); build_status = running; current_phase = none; exports = [] }
        ∷ []),
    w,
  );
  list_builds_for_project = λ _ w. (succeed [], w);
  stop_build = λ _ w. (succeed no_output, w);
}

abbrev a_registry : EcrClient ℕ
a_registry = record {
  describe_images = λ _ _ w. (
    succeed (record { image_digest = some (codes "sha256:d"); image_tags = codes "v1" ∷ [] } ∷ []),
    w,
  );
  batch_delete_image = λ _ _ w. (succeed [], w);
}

abbrev some_roles : IamClient ℕ
some_roles = record {
  get_role = λ _ w. (succeed (some (some (codes "arn"))), w);
  create_role = λ _ _ w. (succeed (some (some (codes "arn"))), w);
  put_role_policy = λ _ _ _ w. (succeed no_output, w);
  delete_role_policy = λ _ _ w. (succeed no_output, w);
  delete_role = λ _ w. (succeed no_output, w);
}

abbrev an_image_build : ImageBuild ℕ
an_image_build = record {
  region = [];
  code_build = λ w. (succeed a_builder, w);
  ecr = λ w. (succeed a_registry, w);
  iam = λ w. (succeed some_roles, w);
  now = λ w. (a_time, w);
  sleep = λ _ w. w;
  codec = record {
    unmarshal = λ _. some null;
    marshal = λ _. codes "{}";
    error_of = λ _. new_error (codes "bad");
  };
  decode_input = λ _. inl an_input;
  decode_outputs = λ _. some_outputs;
  match_repository_uri = λ _. some (codes "1", (codes "r", codes "web"));
  matches_image_tag = λ _. true;
  matches_build_arg_key = λ _. true;
  api_message = λ _. [];
  sha256_hex = λ _. codes "h";
  base64 = λ t. t;
  quote = λ t. t;
  operation_text = λ _. codes "create";
  format_time = λ _. codes "t";
  parse_time = λ _. some a_time;
  time_error = λ _. new_error (codes "bad time");
}

abbrev a_state : RequestState
a_state = record {
  operation = codes "create";
  build_id = codes "b";
  repo_uri = codes "u";
  tag = codes "v1";
  deadline = a_time;
  build_config_hash = codes "h";
  prior_digest = codes "sha256:d";
}

decode_request_id-encode_request_id_example :
    decode_request_id an_image_build (encode_request_id an_image_build a_state) ≡ inl a_state
decode_request_id-encode_request_id_example =
    decode_request_id-encode_request_id an_image_build a_state (omega arith) refl

abbrev a_build_poll : StatusRequest
a_build_poll = record {
  resource_type = codes "AWS::CodeBuild::ImageBuild";
  request_id = encode_request_id an_image_build a_state;
  native_id = codes "u|v1";
  target_config = none;
}

image_status-Sound_example :
    Sound an_image_build a_build_poll a_state 0 (image_status an_image_build a_build_poll 0)
image_status-Sound_example =
    image_status-Sound an_image_build a_build_poll a_state 0
      (decode_request_id-encode_request_id an_image_build a_state (omega arith) refl)

abbrev itself : ℕ → ℕ
itself n = n

abbrev done : Io ℕ (Outcome ℕ)
done w = (succeed 1, w)

a_builder-Counts : Counts an_image_build a_builder itself
a_builder-Counts = record {
  creates = λ p w. refl;
  updates = λ p w. refl;
  looks = λ names w. refl;
  sleeps = λ d w. refl;
}

ensure_project-calls_example :
    itself (ensure_project an_image_build a_builder an_input (codes "p") (codes "arn") done 0).1
    ≤ itself 0 + 8
ensure_project-calls_example =
    ensure_project-calls an_image_build a_builder itself a_builder-Counts done (λ w. refl) an_input
      (codes "p") (codes "arn") 0
