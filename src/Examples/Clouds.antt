-- ===== src/Examples/Clouds.antt =====
-- A cloud that counts its calls, and the client and the plugin on it.
use formae_plugin_aws.Prelude.{
  ℕ, suc, ◌≡◌, refl, ◌↔◌, inr, true, false, ◌&&◌, none, some, List, [], ◌∷◌, arith, Member,
  if◌then◌else◌, ◌≤◌, ◌<◌, ◌+◌, Io,
}
use formae_plugin_aws.Text.{Text, codes, ◌===◌}
use formae_plugin_aws.Go.{Outcome, succeed, fail, new_error}
use formae_plugin_aws.Sdk
use formae_plugin_aws.Sdk.{
  cc_create, cc_delete, cc_in_progress, cc_success, cc_failed, create, read, ProgressEvent,
  ProgressResult, ReadResult, StatusRequest, CreateRequest, UpdateRequest, DeleteRequest,
  in_progress, is_not_found,
}
use formae_plugin_aws.Json.{Fields, null, string, end, field, Codec}
use formae_plugin_aws.Registry.{register}
use formae_plugin_aws.Registry.Laws.{among}
use formae_plugin_aws.Props.{requires_map_tags}
use formae_plugin_aws.Ccx.Retry.{Clock, default_opts, with_defaults, retry, read_settled}
use formae_plugin_aws.Ccx.Retry.Calls.{Counts, retry-calls}
use formae_plugin_aws.Ccx.Retry.Result.{Ends, retry-Ends}
use formae_plugin_aws.Ccx.Cloud.{Cloud, Listed}
use formae_plugin_aws.Ccx.Write.{update_resource}
use formae_plugin_aws.Ccx.Write.Laws.{update_resource_guarded}
use formae_plugin_aws.Ccx.Poll.{status_resource}
use formae_plugin_aws.Ccx.Poll.Laws.{Follows, status_resource-Follows}
use formae_plugin_aws.Plugin.{Provisioner, dispatch, native_ids, skipped}
use formae_plugin_aws.Plugin.Filter.{Passes}
use formae_plugin_aws.Plugin.Laws.{native_ids-Passes, dispatch-register}

abbrev a_clock : Clock ℕ
a_clock = record { int64n = λ n w. (0, w); wait = λ n w. (none, w) }

-- A codec that decodes everything to JSON null.
abbrev a_codec : Codec
a_codec = record {
  unmarshal = λ _. some null;
  marshal = λ _. codes "null";
  error_of = λ _. new_error (codes "bad");
}

-- An event of an operation that is under way.
abbrev an_event : ProgressEvent
an_event = record {
  operation = cc_create;
  operation_status = cc_in_progress;
  identifier = none;
  request_token = some (codes "token");
  status_message = none;
  type_name = some (codes "T");
  error_code = Sdk.no_code;
}

-- A call that counts itself and gives the answer.
abbrev answer {ℓ} : {A : Type ℓ} → A → Io ℕ (Outcome A)
answer a w = (succeed a, suc w)

abbrev a_cloud : Cloud ℕ
a_cloud = record {
  codec = a_codec;
  clock = a_clock;
  matches_consistency = λ _. false;
  matches_target_group = λ _. true;
  create_resource = λ _ _. answer an_event;
  update_resource = λ _ _ _. answer an_event;
  delete_resource = λ _ _. answer an_event;
  get_resource =
      λ _ _. answer (record { type_name = some (codes "T"); properties = some (codes "{}") });
  request_status = λ _. answer an_event;
  list_resources = λ _. answer (record { descriptions = []; next_token = none });
}

-- A call that always fails, and counts itself.
abbrev failing : Io ℕ (Outcome ReadResult)
failing w = (fail (new_error (codes "no route to host")), suc w)

failing-Counts : Counts a_clock failing (λ w. w)
failing-Counts = record { call = λ w. refl; draw = λ n w. refl; wait = λ n w. refl }

retry-calls_example :
    (0 < (retry a_clock read_settled default_opts failing 0).1)
    × ((retry a_clock read_settled default_opts failing 0).1
        ≤ 0 + (with_defaults default_opts).attempts)
retry-calls_example =
    retry-calls a_clock read_settled default_opts failing (λ w. w) 0 failing-Counts

retry-Ends_example :
    let r = retry a_clock read_settled default_opts failing 0 in
    Ends read_settled (λ w. w) (with_defaults default_opts).attempts 0 r.0 r.1
retry-Ends_example =
    retry-Ends a_clock read_settled default_opts failing (λ w. w) 0 failing-Counts
      (record { no_panic = λ w. tt; no_end = λ n w. refl })
      (unfold with_defaults in
        record { base_ge = omega arith; base_le = omega arith; limit_ge = omega arith })

abbrev a_create : CreateRequest
a_create = record { resource_type = codes "T"; properties = codes "{}"; target_config = none }

abbrev a_delete : DeleteRequest
a_delete = record { resource_type = codes "T"; native_id = codes "n"; target_config = none }

abbrev an_update : UpdateRequest
an_update = record {
  resource_type = codes "AWS::EKS::Nodegroup";
  native_id = codes "n";
  prior_properties = codes "{}";
  desired_properties = codes "{}";
  patch_document = some (codes "[]");
  target_config = none;
}

update_resource_guarded_example : (update_resource a_cloud an_update 0).1 ≡ 1
unfolding requires_map_tags ◌===◌
update_resource_guarded_example =
    update_resource_guarded a_cloud an_update 0
      (some (record { type_name = some (codes "T"); properties = some (codes "{}") })) none refl
      (inr refl)

abbrev a_poll : StatusRequest
a_poll = record {
  resource_type = codes "T";
  request_id = codes "token";
  native_id = codes "n";
  target_config = none;
}

abbrev a_read : ReadResult
a_read = record { resource_type = codes "T"; properties = codes "{}"; error_code = Sdk.no_code }

status_resource-Follows_example :
    Follows a_poll (status_resource a_cloud (λ _. answer a_read) a_poll 0).0
status_resource-Follows_example = status_resource-Follows a_cloud (λ _. answer a_read) a_poll 0

-- Properties and a filter for a listing.
abbrev some_fields : Fields
some_fields = field (codes "ApiId") (string (codes "a")) end

abbrev a_filter : List (Text × Text)
a_filter = (codes "ApiId", codes "b") ∷ []

abbrev a_listing : List Listed
a_listing = record { identifier = some (codes "i"); properties = none } ∷ []

native_ids-Passes_example :
    Member (codes "i") (codes "i" ∷ [])
    ↔ (d : Listed) × (Member d a_listing
        × (Passes a_codec a_filter d × (d.identifier ≡ some (codes "i"))))
native_ids-Passes_example =
    native_ids-Passes a_codec a_filter a_listing (codes "i" ∷ []) (codes "i")
      (unfold native_ids skipped in refl)

abbrev a_provisioner : Provisioner ℕ
a_provisioner = record {
  create = λ _ w. (fail (new_error []), w);
  update = λ _ w. (fail (new_error []), w);
  delete = λ _ w. (fail (new_error []), w);
  status = λ _ w. (fail (new_error []), w);
  read = λ _. answer a_read;
  list = λ _ w. (fail (new_error []), w);
}

abbrev run_read : Provisioner ℕ → Io ℕ (Outcome ReadResult)
run_read p =
    p.read (record { resource_type = codes "T"; native_id = codes "n"; target_config = none })

dispatch-register_example :
    dispatch
      (register (codes "T") (read ∷ []) (λ _. a_provisioner) [])
      (λ _. answer a_cloud)
      (codes "T")
      read
      none
      run_read
      (λ _. failing)
      0
    ≡ (if codes "T" === codes "T" && among read (read ∷ [])
        then run_read a_provisioner 0
        else dispatch [] (λ _. answer a_cloud) (codes "T") read none run_read (λ _. failing) 0)
dispatch-register_example =
    dispatch-register [] (λ _. answer a_cloud) (codes "T") (codes "T") (read ∷ []) read
      (λ _. a_provisioner) none run_read (λ _. failing) 0
