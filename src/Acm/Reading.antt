-- ===== src/Acm/Reading.antt =====
-- readProperties, Read, Status and List of certificate.go, and the poll for the validation records.
-- In the property map of the code, ValidationRecords has a Go type of its own; it is a JSON array
-- here, or null for the nil slice.
pub mod Laws
use formae_plugin_aws.Prelude.Int.{ℤ, pos, negsuc, pos_part, ltb_ℤ}
use formae_plugin_aws.Prelude.{
  ℕ, zero, suc, ◌==◌, Bool, true, false, ◌&&◌, ◌||◌, not, Option, none, some, List, [], ◌∷◌, ◌++◌,
  if◌then◌else◌, Io, pure, is_some,
}
use formae_plugin_aws.Text.{Text, codes, ◌===◌, is_empty, trim_suffix}
use formae_plugin_aws.Go.{
  GoError, new_error, wrap_error, Outcome, returned, panicked, succeed, fail, after, deref,
  unless_error, call,
}
use formae_plugin_aws.Sdk.{
  no_code, not_found, no_operation, ReadRequest, ReadResult, StatusRequest, ListRequest, ListResult,
  ProgressResult, done_result,
}
use formae_plugin_aws.Json.{
  Json, Items, Fields, null, string, number, array, object, nil, cons, end, field, get, put, Codec,
}
use formae_plugin_aws.Acm.Client.{
  Tag, ResourceRecord, DomainValidation, CertificateDetail, CertificatesInput, CertificatesOutput,
  AcmClient, Certificate,
}
use formae_plugin_aws.Properties.{or_empty}

abbrev text_items : List Text → Items
text_items [] = nil
text_items (s ∷ ss) = cons (string s) (text_items ss)

unfoldable pub normalize_key_algorithm_for_cfn : Text → Text
normalize_key_algorithm_for_cfn s =
    if s === codes "RSA-1024"
    then codes "RSA_1024"
    else if s === codes "RSA-2048"
    then codes "RSA_2048"
    else if s === codes "RSA-3072"
    then codes "RSA_3072"
    else if s === codes "RSA-4096"
    then codes "RSA_4096"
    else s

-- ses.DnsRecord, without its optional priority, as it is marshalled
abbrev dns_record : Text → Text → Text → Json
dns_record record_type name value = object (
    field (codes "Type") (string record_type) (
      field (codes "Name") (string name) (
        field (codes "Values") (array (cons (string value) nil))
          (field (codes "RecommendedTtl") (number (codes "300")) end))))

-- A record with its name and value is there; the trailing dots go.
abbrev pub record_items : Option ResourceRecord → Items → Items
record_items none rest = rest
record_items (some rr) rest = elim rr.name [
  | none ↦ rest
  | some name ↦ elim rr.value [
    | none ↦ rest
    | some value ↦
        cons
          (dns_record rr.record_type (trim_suffix (codes ".") name) (trim_suffix (codes ".") value))
          rest
  ]
]

unfoldable pub validation_records : List DomainValidation → Items
validation_records [] = nil
validation_records (opt ∷ opts) = record_items opt.resource_record (validation_records opts)

-- The nil slice is null.
abbrev slice : Items → Json
slice nil = null
slice (cons item items) = array (cons item items)

abbrev validation_records_from_cert : CertificateDetail → Json
validation_records_from_cert cert = slice (validation_records cert.domain_validation_options)

unfoldable pub has_nonempty_validation_records : Fields → Bool
has_nonempty_validation_records props = elim (get (codes "ValidationRecords") props) [
  | some (array (cons _ _)) ↦ true
  | _ ↦ false
]

abbrev put_some : Text → Option Text → Fields → Fields
put_some key none m = m
put_some key (some s) m = put key (string s) m

-- a string that is not empty
abbrev pub nonempty : Text → Option Text
nonempty [] = none
nonempty (c ∷ s) = some (c ∷ s)

-- The alternative names, unless there are none or only the domain itself.
abbrev alternative_names : Text → List Text → Fields → Fields
alternative_names domain [] m = m
alternative_names domain (name ∷ []) m =
    if name === domain
    then m
    else put (codes "SubjectAlternativeNames") (array (text_items (name ∷ []))) m
alternative_names domain (name ∷ other ∷ names) m =
    put (codes "SubjectAlternativeNames") (array (text_items (name ∷ other ∷ names))) m

abbrev validation_method_of : List DomainValidation → Option Text
validation_method_of [] = none
validation_method_of (opt ∷ opts) = nonempty opt.validation_method

abbrev map_text : (Text → Text) → Option Text → Option Text
map_text f none = none
map_text f (some s) = some (f s)

-- The properties before the tags.
unfoldable pub certificate_properties : Text → CertificateDetail → Fields
certificate_properties arn cert =
    let with_domain =
      put_some (codes "DomainName") cert.domain_name (field (codes "Id") (string arn) end) in
    let with_names =
      alternative_names (or_empty cert.domain_name) cert.subject_alternative_names with_domain in
    let with_algorithm =
      put_some (codes "KeyAlgorithm")
        (map_text normalize_key_algorithm_for_cfn (nonempty cert.key_algorithm)) with_names in
    let with_method =
      put_some (codes "ValidationMethod") (validation_method_of cert.domain_validation_options)
        with_algorithm in
    let with_preference =
      put_some (codes "CertificateTransparencyLoggingPreference")
        (nonempty (or_empty cert.transparency_preference)) with_method in
    put (codes "ValidationRecords") (validation_records_from_cert cert) with_preference

unfoldable pub tag_items : List Tag → Items
tag_items [] = nil
tag_items (t ∷ ts) = elim t.key [
  | none ↦ tag_items ts
  | some key ↦
      cons (object (put_some (codes "Value") t.value (field (codes "Key") (string key) end)))
        (tag_items ts)
]

-- Tags that cannot be listed, or are none, are left out.
abbrev with_tags : Fields → Option (List Tag) → Option GoError → Fields
with_tags props (some (t ∷ ts)) none = put (codes "Tags") (slice (tag_items (t ∷ ts))) props
with_tags props (some []) none = props
with_tags props (some tags) (some e) = props
with_tags props none err = props

module _ {ℓ} {W : Type ℓ} (client : AcmClient W) where
  unfoldable pub described : Text → Option CertificateDetail → Io W (Outcome Fields)
  described arn none w = (
    fail (new_error (codes "acm: DescribeCertificate returned no certificate body for " ++ arn)),
    w,
  )
  described arn (some cert) w =
      let listed = client.list_tags arn w in
      after listed.0
        (λ tags err w'. (succeed (with_tags (certificate_properties arn cert) tags err), w'))
        listed.1

  -- The output of the call is nil, or has no certificate.
  unfoldable pub read_properties : Text → Io W (Outcome Fields)
  read_properties arn w =
      let asked = client.describe_certificate arn w in
      after asked.0
        (λ out err.
          unless_error err (λ e. fail (wrap_error (codes "acm: DescribeCertificate: ") e))
            (described arn (elim out [ none ↦ none | some cert ↦ cert ])))
        asked.1

unfoldable pub interval_of : ℤ → ℤ
interval_of d = if ltb_ℤ (pos 0) d then d else pos 500000000

unfoldable pub attempts_of : ℤ → ℕ
attempts_of (pos (suc n)) = suc n
attempts_of _ = 10

abbrev missing_result : ReadRequest → ReadResult
missing_result request = record {
  resource_type = request.resource_type;
  properties = [];
  error_code = not_found;
}

abbrev read_failure : ReadRequest → GoError → Outcome ReadResult
read_failure request e = if e.is_missing then succeed (missing_result request) else fail e

abbrev pub key_types : List Text
key_types =
    codes "RSA_1024"
    ∷ codes "RSA_2048"
    ∷ codes "RSA_3072"
    ∷ codes "RSA_4096"
    ∷ codes "EC_prime256v1"
    ∷ codes "EC_secp384r1"
    ∷ codes "EC_secp521r1"
    ∷ []

abbrev certificates_input : ListRequest → CertificatesInput
certificates_input request = record {
  key_types = key_types;
  max_items = if ltb_ℤ (pos 0) request.page_size then some request.page_size else none;
  next_token = nonempty (or_empty request.page_token);
}

unfoldable listed_arns : List (Option Text) → List Text
listed_arns [] = []
listed_arns (none ∷ arns) = listed_arns arns
listed_arns (some arn ∷ arns) = arn ∷ listed_arns arns

module _ {ℓ} {W : Type ℓ} (c : Certificate W) where
  -- The end of an attempt: the records are there, or it was the last one, or the context ends in the
  -- pause, or there is another attempt.
  unfoldable pub after_poll : ℕ → Io W (Outcome Fields) → Fields → Io W (Outcome Fields)
  after_poll left next props w =
      let paused = c.wait (interval_of c.poll_interval) w in
      let continued = next paused.1 in
      if has_nonempty_validation_records props || left == 0
      then (succeed props, w)
      else if paused.0
      then (succeed props, paused.1)
      else continued

  -- `for attempt := 1; attempt <= maxAttempts; attempt++`, by the attempts that are left
  unfoldable pub poll_records : AcmClient W → Text → ℕ → Io W (Outcome Fields)
  poll_records client arn zero w = (returned none none, w)
  poll_records client arn (suc left) w =
      call (read_properties client arn) fail (after_poll left (poll_records client arn left)) w

  unfoldable pub read_properties_with_validation_records :
      AcmClient W → Text → Io W (Outcome Fields)
  unfolding poll_records
  read_properties_with_validation_records client arn =
      poll_records client arn (attempts_of c.poll_attempts)

  abbrev found_result : Fields → ReadResult
  found_result props = record {
    resource_type = codes "AWS::CertificateManager::Certificate";
    properties = c.codec.marshal (object props);
    error_code = no_code;
  }

  unfoldable certificate_read : ReadRequest → Io W (Outcome ReadResult)
  certificate_read request =
      call c.acm_client (λ e. fail (wrap_error (codes "acm: build client: ") e))
        (λ client.
          call (read_properties client request.native_id) (read_failure request)
            (λ props w. (succeed (found_result props), w)))

  -- A certificate that is gone is a success too.
  unfoldable certificate_status : StatusRequest → Io W (Outcome ProgressResult)
  certificate_status request =
      let read : ReadRequest = record {
        resource_type = request.resource_type;
        native_id = request.native_id;
        target_config = request.target_config;
      } in
      call (certificate_read read) fail
        (λ r w. (succeed (done_result no_operation request.native_id (some r.properties)), w))

  unfoldable certificate_list : ListRequest → Io W (Outcome ListResult)
  certificate_list request = call c.acm_client fail (λ client.
      call (client.list_certificates (certificates_input request))
        (λ e. fail (wrap_error (codes "acm: ListCertificates: ") e))
        (λ out w. (
          succeed (record { native_ids = listed_arns out.arns; next_page_token = out.next_token }),
          w,
        )))
