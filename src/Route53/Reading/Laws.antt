-- ===== src/Route53/Reading/Laws.antt =====
-- What is read of a record set: the record sets that a listing names are found, and the validation
-- records of a certificate are read as the certificate's provisioner gives them.
use formae_plugin_aws.Prelude.Int.{ℤ}
use formae_plugin_aws.Prelude.{
  ◌≡◌, refl, inl, inr, arith, true, ◌&&◌, Option, none, some, List, [], ◌∷◌, Member, Bool-cases,
  ◌∙◌, ap,
}
use formae_plugin_aws.Text.{Text, codes, ◌===◌, has_suffix}
use formae_plugin_aws.Text.Equality.{eq_refl}
use formae_plugin_aws.Text.Split.{Lacks}
use formae_plugin_aws.Go.{succeed}
use formae_plugin_aws.Go.Laws.{call_ok}
use formae_plugin_aws.Sdk.{no_code, ReadRequest}
use formae_plugin_aws.Json.{Fields, nil, cons, object, get, put}
use formae_plugin_aws.Properties.{or_empty}
use formae_plugin_aws.Acm.Client.{DomainValidation}
use formae_plugin_aws.Acm.Reading.{validation_records}
use formae_plugin_aws.Route53.Client.{RecordSet, RecordSetsOutput, Client, Route53}
use formae_plugin_aws.Route53.Names.{Target, native_id, with_dot, parse_native_id}
use formae_plugin_aws.Route53.Names.Laws.{parse_native_id-native_id}
use formae_plugin_aws.Route53.Reading.{
  is_hostname_valued_record_type, build_read_properties, find_record_set, target_input, read_result,
  read_target, record_set_read,
}

abbrev FoundIn : Text → Text → List RecordSet → Type 0
FoundIn name t sets = (rrs : RecordSet) × (find_record_set name t sets ≡ some rrs)

-- A record set of the list is found by its name and type, or one before it is.
find_record_set-Member :
    (name t : Text) (rrs : RecordSet) (sets : List RecordSet)
    → Member rrs sets
    → rrs.name ≡ some name
    → rrs.record_type ≡ t
    → FoundIn name t sets
unfolding find_record_set
find_record_set-Member name t rrs [] m n e = absurd m
find_record_set-Member name t rrs (x ∷ sets) m n e =
    elim (Bool-cases (or_empty x.name === name && x.record_type === t)) [
      | inl here ↦ (x, rw (find_record_set, here) refl)
      | inr other ↦ elim m [
        | inl p ↦ absurd (ground (arith, p, n, e, eq_refl name, eq_refl t))
        | inr later ↦ rw (find_record_set, other) (find_record_set-Member name t rrs sets later n e)
      ]
    ]

-- The native id that a listing gives for a record set, whose name ends in a dot and has no bar, as
-- its zone, is read as a record set that is there: the read asks for just this zone, name and type,
-- and answers with the first record set of that name and type.
pub record_set_read-native_id {ℓ} :
    {W : Type ℓ} (r : Route53 W) (client : Client W) (request : ReadRequest) (rrs : RecordSet)
    (zone name t : Text) (out : RecordSetsOutput) (w w₁ w₂ : W)
    → request.native_id ≡ native_id zone name t
    → Lacks b'|' zone
    → Lacks b'|' name
    → has_suffix (codes ".") name ≡ true
    → r.client w ≡ (succeed client, w₁)
    → client.list_record_sets
        (target_input (record { zone = zone; name = name; record_type = t }))
        w₁
      ≡ (succeed out, w₂)
    → Member rrs out.record_sets
    → rrs.name ≡ some name
    → rrs.record_type ≡ t
    → (found : RecordSet) × ((find_record_set name t out.record_sets ≡ some found)
        × (record_set_read r request w ≡ (
          succeed (record {
            resource_type = codes "AWS::Route53::RecordSet";
            properties = r.codec.marshal (object (build_read_properties found zone name t));
            error_code = no_code;
          }),
          w₂,
        )))
unfolding record_set_read read_target read_result with_dot
record_set_read-native_id r client request rrs zone name t out w w₁ w₂ id hz hn dotted built listed
      m en et =
    let (found, f) = find_record_set-Member name t rrs out.record_sets m en et in
    let target : Target = record { zone = zone; name = name; record_type = t } in
    let parsed : parse_native_id request.native_id ≡ some target =
      ap parse_native_id id
      ∙ (parse_native_id-native_id zone name t hz hn ∙ rw (with_dot, dotted) refl) in
    let asked : read_target r request client target w₁
        ≡ (succeed (read_result r request target (some found)), w₂) =
      call_ok (client.list_record_sets (target_input target)) _ _ w₁ w₂ out listed
      ∙ ap (λ o. (succeed (read_result r request target o), w₂)) f in
    (found, (f, call_ok r.client _ _ w w₁ client built ∙ rw (parsed) asked))

-- A validation record of a certificate, of a type whose values are hostnames, that is published as
-- a record set under its own name, is read back with the name, the type and the value that the
-- certificate's provisioner gives for it.
pub build_read_properties-validation_records :
    (method zone name value t : Text) (ttl : Option ℤ)
    → is_hostname_valued_record_type t ≡ true
    → let published : RecordSet = record {
      name = some name;
      record_type = t;
      alias_target = none;
      resource_records = some value ∷ [];
      ttl = ttl;
    } in
      let props = build_read_properties published zone name t in
      let validation : DomainValidation = record {
        validation_method = method;
        resource_record = some (record { record_type = t; name = some name; value = some value });
      } in
      (rec : Fields) × ((validation_records (validation ∷ []) ≡ cons (object rec) nil)
        × ((get (codes "Name") props ≡ get (codes "Name") rec)
            × ((get (codes "Type") props ≡ get (codes "Type") rec)
                × (get (codes "ResourceRecords") props ≡ get (codes "Values") rec))))
unfolding build_read_properties validation_records get put ◌===◌
build_read_properties-validation_records method zone name value t none h =
    (_, (refl, (refl, (refl, rw h refl))))
build_read_properties-validation_records method zone name value t (some n) h =
    (_, (refl, (refl, (refl, rw h refl))))
