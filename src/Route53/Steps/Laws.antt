-- ===== src/Route53/Steps/Laws.antt =====
-- A delete from the answer of its read on, and one of a record set that is not there.
use formae_plugin_aws.Prelude.{◌≡◌, refl, ◌⊎◌, inl, inr, Option, none, some, [], ◌∙◌, ap}
use formae_plugin_aws.Go.{GoError, Outcome, returned, succeed}
use formae_plugin_aws.Go.Laws.{call_ok, call_error}
use formae_plugin_aws.Sdk.{delete, done_result, DeleteRequest, ReadRequest}
use formae_plugin_aws.Route53.Client.{RecordSet, RecordSetsOutput, Client, Route53}
use formae_plugin_aws.Route53.Names.{Target, parse_native_id}
use formae_plugin_aws.Route53.Reading.{
  find_record_set, target_input, read_result, read_target, record_set_read,
}
use formae_plugin_aws.Route53.Steps.{delete_read, record_set_delete}

-- The request of the read before a delete.
abbrev pub read_before : DeleteRequest → ReadRequest
read_before request = record {
  resource_type = [];
  native_id = request.native_id;
  target_config = none;
}

-- Nothing is found: the listing is an error, or it has no record set of the name and the type.
abbrev Missing {ℓ} : {W : Type ℓ} → Target → Outcome RecordSetsOutput × W → W → Type ℓ
Missing target answer w =
    ((out : Option RecordSetsOutput) × ((e : GoError) × (answer ≡ (returned out (some e), w))))
    ⊎ ((out : RecordSetsOutput) × ((answer ≡ (succeed out, w))
          × (find_record_set target.name target.record_type out.record_sets ≡ none)))

module _ {ℓ} {W : Type ℓ} (r : Route53 W) (client : Client W) (request : DeleteRequest)
    (target : Target) (w w₁ w₂ w₃ : W) (built : r.client w ≡ (succeed client, w₁))
    (built_again : r.client w₁ ≡ (succeed client, w₂))
    (parsed : parse_native_id request.native_id ≡ some target) where
  read_before-target :
      record_set_read r (read_before request) w₁
      ≡ read_target r (read_before request) client target w₂
  unfolding record_set_read
  read_before-target = call_ok r.client _ _ w₁ w₂ client built_again ∙ rw parsed refl

  -- The delete, from the answer of its read on.
  pub delete_after-read :
      (found : Option RecordSet)
      → read_target r (read_before request) client target w₂
        ≡ (succeed (read_result r (read_before request) target found), w₃)
      → record_set_delete r request w
        ≡ delete_read r request client (read_result r (read_before request) target found) w₃
  unfolding record_set_delete
  delete_after-read found asked =
      call_ok r.client _ _ w w₁ client built
      ∙ call_ok (record_set_read r (read_before request)) _ (delete_read r request client) w₁ w₃ _
          (read_before-target ∙ asked)

  read_target-Missing :
      Missing target (client.list_record_sets (target_input target) w₂) w₃
      → read_target r (read_before request) client target w₂
        ≡ (succeed (read_result r (read_before request) target none), w₃)
  unfolding read_target read_result
  read_target-Missing (inl (out, (e, p))) =
      call_error (client.list_record_sets (target_input target)) _ _ w₂ w₃ out e p
  read_target-Missing (inr (out, (p, f))) =
      call_ok (client.list_record_sets (target_input target)) _ _ w₂ w₃ out p
      ∙ ap (λ o. (succeed (read_result r (read_before request) target o), w₃)) f

  -- A delete whose read finds nothing, be it that the listing is an error, is a success, and the
  -- world is as the listing leaves it: no change is sent.
  pub record_set_delete-Missing :
      Missing target (client.list_record_sets (target_input target) w₂) w₃
      → record_set_delete r request w ≡ (succeed (done_result delete request.native_id none), w₃)
  unfolding read_result delete_read
  record_set_delete-Missing h = delete_after-read none (read_target-Missing h)
