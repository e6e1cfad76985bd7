-- ===== src/Examples/Certificates.antt =====
-- A certificate whose tags are the world, at an account that has them.
use formae_plugin_aws.Prelude.Int.{pos}
use formae_plugin_aws.Prelude.{ℕ, suc, refl, none, some, ◌∷◌, [], false, if◌then◌else◌}
use formae_plugin_aws.Text.{Text, codes, ◌===◌}
use formae_plugin_aws.Go.{succeed, no_output, new_error}
use formae_plugin_aws.Sdk.{UpdateRequest, CreateRequest}
use formae_plugin_aws.Json.{Fields, string, array, object, nil, cons, end, field, Codec, get}
use formae_plugin_aws.Maps.{Map, lookup, insert}
use formae_plugin_aws.Ccx.Read.{decode_map}
use formae_plugin_aws.Acm.Client.{AcmClient, Certificate, CertificateDetail}
use formae_plugin_aws.Acm.Tags.{tag_set_from_properties}
use formae_plugin_aws.Acm.Tags.Laws.{drop_tags, set_tags}
use formae_plugin_aws.Acm.Reading.{attempts_of, read_properties_with_validation_records}
use formae_plugin_aws.Acm.Reading.Laws.{
  Counts, Polled, read_properties_with_validation_records-Polled,
}
use formae_plugin_aws.Acm.Steps.{certificate_update, certificate_create}
use formae_plugin_aws.Acm.Steps.Laws.{
  TagStore, Reconciled, certificate_update-Reconciled, Created, certificate_create-Created,
}

-- The tags of the account's one certificate, and how often it was described.
abbrev World : Type 0
World = Map Text × ℕ

abbrev a_detail : CertificateDetail
a_detail = record {
  domain_name = some (codes "example.com");
  subject_alternative_names = [];
  key_algorithm = codes "RSA-2048";
  domain_validation_options = [];
  transparency_preference = none;
}

abbrev an_arn : Text
an_arn = codes "arn:aws:acm:r:1:certificate/c"

abbrev a_client : AcmClient World
a_client = record {
  request_certificate = λ _ w. (succeed (some an_arn), w);
  describe_certificate = λ _ (m, n). (succeed (some a_detail), (m, suc n));
  delete_certificate = λ _ w. (succeed no_output, w);
  add_tags = λ _ ts (m, n). (succeed no_output, (set_tags ts m, n));
  remove_tags = λ _ ts (m, n). (succeed no_output, (drop_tags ts m, n));
  list_tags = λ _ w. (succeed [], w);
  list_certificates = λ _ w. (succeed (record { arns = []; next_token = none }), w);
  update_options = λ _ _ w. (succeed no_output, w);
}

abbrev tags : Text → Text → Fields
tags k v = field (codes "DomainName") (string (codes "example.com")) (
    field (codes "Tags")
      (array
        (cons (object (field (codes "Key") (string k) (field (codes "Value") (string v) end))) nil))
      end)

-- A codec that knows two texts.
abbrev a_codec : Codec
a_codec = record {
  unmarshal = λ t.
      if t === codes "old"
      then some (object (tags (codes "team") (codes "a")))
      else some (object (tags (codes "stage") (codes "b")));
  marshal = λ _. codes "{}";
  error_of = λ _. new_error (codes "bad");
}

abbrev a_certificate : Certificate World
a_certificate = record {
  acm_client = λ w. (succeed a_client, w);
  codec = a_codec;
  poll_interval = pos 0;
  poll_attempts = pos 3;
  wait = λ _ w. (false, w);
}

abbrev a_change : UpdateRequest
a_change = record {
  resource_type = codes "AWS::CertificateManager::Certificate";
  native_id = an_arn;
  prior_properties = codes "old";
  desired_properties = codes "new";
  patch_document = none;
  target_config = none;
}

abbrev a_creation : CreateRequest
a_creation = record {
  resource_type = codes "AWS::CertificateManager::Certificate";
  properties = codes "new";
  target_config = none;
}

abbrev tags_in : World → Text → Map Text
tags_in w arn = w.0

abbrev before : World
before = ((codes "team", codes "a") ∷ [], 0)

a_client-TagStore : TagStore a_client tags_in
a_client-TagStore = record {
  removes = λ arn ts w out e. refl;
  adds = λ arn ts w out e. refl;
  describes = λ arn w. refl;
  lists = λ arn w. refl;
  prefers = λ arn preference w. refl;
}

certificate_update-Reconciled_example :
    Reconciled tags_in an_arn
      (some (codes "b"))
      (codes "stage")
      (certificate_update a_certificate a_change before)
unfolding decode_map tag_set_from_properties lookup insert get ◌===◌
certificate_update-Reconciled_example =
    certificate_update-Reconciled a_certificate a_client tags_in a_change
      (object (tags (codes "team") (codes "a"))) (object (tags (codes "stage") (codes "b")))
      (codes "stage") before before a_client-TagStore refl refl refl refl

certificate_create-Created_example :
    Created an_arn (certificate_create a_certificate a_creation before).0
unfolding decode_map get ◌===◌
certificate_create-Created_example =
    certificate_create-Created a_certificate a_client a_creation
      (object (tags (codes "stage") (codes "b"))) (codes "example.com") an_arn before before before
      refl refl refl refl

abbrev described_times : World → ℕ
described_times w = w.1

a_certificate-Counts : Counts a_certificate a_client described_times
a_certificate-Counts = record {
  describe = λ arn w. refl;
  tags = λ arn w. refl;
  pause = λ d w. refl;
  goes_on = λ d w. refl;
}

read_properties_with_validation_records-Polled_example :
    Polled described_times
      (attempts_of (pos 3))
      before
      (read_properties_with_validation_records a_certificate a_client an_arn before)
read_properties_with_validation_records-Polled_example =
    read_properties_with_validation_records-Polled a_certificate a_client described_times an_arn
      before a_certificate-Counts
