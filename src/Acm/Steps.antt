-- ===== src/Acm/Steps.antt =====
-- Create, Update and Delete of certificate.go. A failure to set the preference of a new certificate,
-- which the code only logs, is dropped.
pub mod Laws
use formae_plugin_aws.Prelude.{
  Bool, true, false, ◌&&◌, not, Option, none, some, List, [], ◌∷◌, ◌++◌, if◌then◌else◌, Io,
}
use formae_plugin_aws.Text.{Text, codes, ◌===◌, is_empty}
use formae_plugin_aws.Go.{
  GoError, new_error, wrap_error, Outcome, NoOutput, returned, panicked, succeed, fail, after,
  unless_error, attempt, call,
}
use formae_plugin_aws.Sdk.{
  create, update, delete, ProgressResult, done_result, CreateRequest, UpdateRequest, DeleteRequest,
}
use formae_plugin_aws.Json.{
  Json, Items, Fields, null, string, object, nil, cons, get, Codec, as_string,
}
use formae_plugin_aws.Properties.{
  text_at, items_of, nonempty_strings, decode_or, get_string_property, unless_bad,
}
use formae_plugin_aws.Ccx.Read.{decode_map, map_of}
use formae_plugin_aws.Acm.Client.{Tag, RequestInput, AcmClient, Certificate}
use formae_plugin_aws.Acm.Tags.{tags_from_properties, tag_set_from_properties, diff_tags}
use formae_plugin_aws.Acm.Reading.{
  nonempty, read_properties, read_properties_with_validation_records,
}

-- The validation domain is the domain itself where none is given.
unfoldable pub validation_options : Items → List (Text × Text)
validation_options nil = []
validation_options (cons (object m) items) =
    let rest = validation_options items in
    let domain = text_at (codes "DomainName") m in
    let validation = text_at (codes "ValidationDomain") m in
    if is_empty domain
    then rest
    else (domain, if is_empty validation then domain else validation) ∷ rest
validation_options (cons _ items) = validation_options items

abbrev pub request_input : Text → Fields → RequestInput
request_input domain_name properties = record {
  domain_name = domain_name;
  subject_alternative_names =
      nonempty_strings (items_of (get (codes "SubjectAlternativeNames") properties));
  validation_method = text_at (codes "ValidationMethod") properties;
  key_algorithm = text_at (codes "KeyAlgorithm") properties;
  certificate_authority_arn = nonempty (text_at (codes "CertificateAuthorityArn") properties);
  domain_validation_options =
      validation_options (items_of (get (codes "DomainValidationOptions") properties));
  tags = tags_from_properties properties;
}

-- json.Marshal of the map that a failed read leaves nil
abbrev pub marshal_read : Codec → Option Fields → Option GoError → Text
marshal_read codec (some props) none = codec.marshal (object props)
marshal_read codec _ _ = codec.marshal null

abbrev delete_failure : DeleteRequest → GoError → Outcome ProgressResult
delete_failure request e =
    if e.is_missing
    then succeed (done_result delete request.native_id none)
    else fail (wrap_error (codes "acm: DeleteCertificate: ") e)

module _ {ℓ} {W : Type ℓ} where
  -- The preference of a new certificate, if one is given; its error is dropped.
  unfoldable pub prefer :
      AcmClient W → Text → Text → Io W (Outcome ProgressResult) → Io W (Outcome ProgressResult)
  prefer client arn preference k w =
      let sent = client.update_options arn preference w in
      if is_empty preference then k w else after sent.0 (λ out err. k) sent.1

  -- A call that is left out for a list without members.
  abbrev pub unless_empty :
      List Tag
      → (List Tag → Io W (Outcome NoOutput))
      → Text
      → Io W (Outcome ProgressResult)
      → Io W (Outcome ProgressResult)
  unless_empty [] send context k = k
  unless_empty (t ∷ ts) send context k =
      attempt (send (t ∷ ts)) (λ e. fail (wrap_error context e)) k

  unfoldable pub sync_preference :
      AcmClient W
      → Text
      → Text
      → Text
      → Io W (Outcome ProgressResult)
      → Io W (Outcome ProgressResult)
  sync_preference client arn prior desired k w =
      let sent =
        attempt (client.update_options arn desired)
          (λ e. fail (wrap_error (codes "acm: UpdateCertificateOptions: ") e)) k w in
      if not (is_empty desired) && not (desired === prior) then sent else k w

module _ {ℓ} {W : Type ℓ} (c : Certificate W) where
  -- props, _ := m(); and the result has what it gives
  unfoldable pub read_back :
      Io W (Outcome Fields) → (Option Text → ProgressResult) → Io W (Outcome ProgressResult)
  read_back m result w =
      after (m w).0 (λ props err w'. (succeed (result (some (marshal_read c.codec props err))), w'))
        (m w).1

  unfoldable pub requested : AcmClient W → Fields → Option Text → Io W (Outcome ProgressResult)
  requested client properties none w =
      (fail (new_error (codes "acm: RequestCertificate returned no ARN")), w)
  requested client properties (some arn) w =
      prefer client arn (text_at (codes "CertificateTransparencyLoggingPreference") properties)
        (read_back (read_properties_with_validation_records c client arn) (done_result create arn))
        w

  unfoldable pub send_request : AcmClient W → Fields → Text → Io W (Outcome ProgressResult)
  send_request client properties domain_name w =
      let asked = client.request_certificate (request_input domain_name properties) w in
      after asked.0
        (λ out err.
          unless_error err (λ e. fail (wrap_error (codes "acm: RequestCertificate: ") e))
            (requested client properties (elim out [ none ↦ none | some arn ↦ arn ])))
        asked.1

  unfoldable pub certificate_create : CreateRequest → Io W (Outcome ProgressResult)
  certificate_create request = call c.acm_client fail (λ client.
      decode_or c.codec (codes "acm: parse properties: ") request.properties (λ properties.
        unless_bad (get_string_property properties (codes "DomainName"))
          (λ e. fail (wrap_error (codes "acm: invalid DomainName: ") e))
          (send_request client properties)))

  unfoldable pub sync : AcmClient W → Text → Fields → Fields → Io W (Outcome ProgressResult)
  sync client arn prior desired =
      let (to_add, to_remove) =
        diff_tags (tag_set_from_properties prior) (tag_set_from_properties desired) in
      unless_empty to_remove (client.remove_tags arn) (codes "acm: RemoveTagsFromCertificate: ") (
        unless_empty to_add (client.add_tags arn) (codes "acm: AddTagsToCertificate: ") (
          sync_preference client arn
            (text_at (codes "CertificateTransparencyLoggingPreference") prior)
            (text_at (codes "CertificateTransparencyLoggingPreference") desired)
            (read_back (read_properties client arn) (done_result update arn))))

  unfoldable pub certificate_update : UpdateRequest → Io W (Outcome ProgressResult)
  certificate_update request = call c.acm_client fail (λ client.
      decode_or c.codec (codes "acm: parse prior properties: ") request.prior_properties (λ prior.
        decode_or c.codec (codes "acm: parse desired properties: ") request.desired_properties
          (sync client request.native_id prior)))

  unfoldable certificate_delete : DeleteRequest → Io W (Outcome ProgressResult)
  certificate_delete request = call c.acm_client fail (λ client.
      attempt (client.delete_certificate request.native_id) (delete_failure request)
        (λ w. (succeed (done_result delete request.native_id none), w)))
