-- ===== src/Acm/Steps/Laws.antt =====
-- What an update does to the tags of a certificate.
use formae_plugin_aws.Prelude.{
  ◌≡◌, refl, ◌⊎◌, inl, inr, ◌∙◌, ◌&&◌, not, Option, none, some, List, [], ◌∷◌, Io, Bool-cases, ap,
  sym, subst,
}
use formae_plugin_aws.Text.{Text, codes, ◌===◌, is_empty}
use formae_plugin_aws.Go.{
  GoError, Outcome, NoOutput, returned, panicked, succeed, fail, after, unless_error, attempt,
  wrap_error,
}
use formae_plugin_aws.Go.Laws.{call_ok, after_holds}
use formae_plugin_aws.Sdk.{
  success, create, update, CreateRequest, ProgressResult, UpdateRequest, done_result,
}
use formae_plugin_aws.Json.{Json, Fields, get, string}
use formae_plugin_aws.Maps.{Map, lookup}
use formae_plugin_aws.Properties.{
  text_at, decode_or, decode_or-some, string_or_error, get_string_property, unless_bad,
}
use formae_plugin_aws.Ccx.Read.{decode_map, map_of}
use formae_plugin_aws.Acm.Client.{Tag, AcmClient, Certificate}
use formae_plugin_aws.Acm.Tags.{tag_set_from_properties, diff_tags}
use formae_plugin_aws.Acm.Tags.Laws.{
  drop_tags, set_tags, tag_set_from_properties-Distinct, diff_tags-reconcile,
}
use formae_plugin_aws.Acm.Reading.{read_properties}
use formae_plugin_aws.Acm.Reading.Laws.{read_properties-view}
use formae_plugin_aws.Acm.Steps.{
  marshal_read, read_back, unless_empty, sync_preference, sync, certificate_update, prefer,
  request_input, send_request, requested, certificate_create,
}

-- The tags of a certificate in the world, as a client's calls change them that return no error.
pub record TagStore {ℓ} {W : Type ℓ} (client : AcmClient W) (view : W → Text → Map Text)
    : Type ℓ where
  pub removes :
      (arn : Text) (ts : List Tag) (w : W) (out : Option NoOutput)
      → (client.remove_tags arn ts w).0 ≡ returned out none
      → view (client.remove_tags arn ts w).1 arn ≡ drop_tags ts (view w arn)
  pub adds :
      (arn : Text) (ts : List Tag) (w : W) (out : Option NoOutput)
      → (client.add_tags arn ts w).0 ≡ returned out none
      → view (client.add_tags arn ts w).1 arn ≡ set_tags ts (view w arn)
  pub describes : (arn : Text) (w : W) → view (client.describe_certificate arn w).1 arn ≡ view w arn
  pub lists : (arn : Text) (w : W) → view (client.list_tags arn w).1 arn ≡ view w arn
  pub prefers :
      (arn preference : Text) (w : W)
      → view (client.update_options arn preference w).1 arn ≡ view w arn

module _ {ℓ} {W : Type ℓ} (view : W → Text → Map Text) (arn : Text) (goal : Option Text)
    (key : Text) where
  -- A panic, an error, or a success after which the key has the tag that it should have.
  abbrev pub Reconciled : Outcome ProgressResult × W → Type 0
  Reconciled (o, w) =
      (o ≡ panicked)
      ⊎ (((e : GoError) × (o ≡ fail e))
          ⊎ ((pr : ProgressResult) × ((o ≡ succeed pr)
                × ((pr.operation_status ≡ success) × (lookup key (view w arn) ≡ goal)))))

  -- After a call without an error, the tags are what the call makes of them.
  attempt-Reconciled :
      (m : Io W (Outcome NoOutput)) (f : GoError → GoError) (k : Io W (Outcome ProgressResult))
      (w : W)
      → ((out : Option NoOutput) → (m w).0 ≡ returned out none → Reconciled (k (m w).1))
      → Reconciled (attempt m (λ e. fail (f e)) k w)
  unfolding attempt
  attempt-Reconciled m f k w h = by_outcome (m w).0 h
    where
      by_outcome :
          (o : Outcome NoOutput)
          → ((out : Option NoOutput) → o ≡ returned out none → Reconciled (k (m w).1))
          → Reconciled (after o (λ out err. unless_error err (λ e. fail (f e)) k) (m w).1)
      by_outcome panicked h' = inl refl
      by_outcome (returned out (some e)) h' = inr (inl (f e, refl))
      by_outcome (returned out none) h' = h' out refl

  unless_empty-Reconciled :
      (step : List Tag → Map Text → Map Text) (send : List Tag → Io W (Outcome NoOutput))
      (context : Text) (ts : List Tag) (k : Io W (Outcome ProgressResult)) (w : W)
      → step [] (view w arn) ≡ view w arn
      → ((us : List Tag) (out : Option NoOutput)
          → (send us w).0 ≡ returned out none
          → view (send us w).1 arn ≡ step us (view w arn))
      → ((w' : W) → view w' arn ≡ step ts (view w arn) → Reconciled (k w'))
      → Reconciled (unless_empty ts send context k w)
  unless_empty-Reconciled step send context [] k w e law h = h w (sym e)
  unless_empty-Reconciled step send context (t ∷ ts) k w e law h =
      attempt-Reconciled (send (t ∷ ts)) _ k w (λ out p. h _ (law (t ∷ ts) out p))

  module _ (client : AcmClient W) (store : TagStore client view) (c : Certificate W) where
    read_back-Reconciled :
        (w : W)
        → lookup key (view w arn) ≡ goal
        → Reconciled (read_back c (read_properties client arn) (done_result update arn) w)
    unfolding read_back
    read_back-Reconciled w h = by_outcome (read_properties client arn w).0
      where
        kept : view (read_properties client arn w).1 arn ≡ view w arn
        kept =
            read_properties-view client (λ u. view u arn) arn (store.lists arn) w
            ∙ store.describes arn w

        by_outcome :
            (o : Outcome Fields)
            → Reconciled (
                after o
                  (λ props err w'.
                    (succeed (done_result update arn (some (marshal_read c.codec props err))), w'))
                  (read_properties client arn w).1)
        by_outcome panicked = inl refl
        by_outcome (returned props err) = inr (inr (_, (refl, (refl, ap (lookup key) kept ∙ h))))

    sync_preference-Reconciled :
        (prior desired : Text) (w : W)
        → lookup key (view w arn) ≡ goal
        → Reconciled (
            sync_preference client arn prior desired
              (read_back c (read_properties client arn) (done_result update arn))
              w)
    unfolding sync_preference
    sync_preference-Reconciled prior desired w h =
        elim (Bool-cases (not (is_empty desired) && not (desired === prior))) [
          | inl e ↦
              rw (sync_preference, e)
                (attempt-Reconciled (client.update_options arn desired) _ _ w (λ out p.
                  read_back-Reconciled _ (ap (lookup key) (store.prefers arn desired w) ∙ h)))
          | inr e ↦ rw (sync_preference, e) (read_back-Reconciled w h)
        ]

sync-Reconciled {ℓ} :
    {W : Type ℓ} (c : Certificate W) (client : AcmClient W) (view : W → Text → Map Text)
    (arn : Text) (prior desired : Fields) (key : Text) (w : W)
    → TagStore client view
    → lookup key (view w arn) ≡ lookup key (tag_set_from_properties prior)
    → Reconciled view arn
        (lookup key (tag_set_from_properties desired))
        key
        (sync c client arn prior desired w)
unfolding sync
sync-Reconciled c client view arn prior desired key w store h =
    let goal = lookup key (tag_set_from_properties desired) in
    let changes = diff_tags (tag_set_from_properties prior) (tag_set_from_properties desired) in
    let preference = codes "CertificateTransparencyLoggingPreference" in
    let prefer =
      sync_preference client arn (text_at preference prior) (text_at preference desired)
        (read_back c (read_properties client arn) (done_result update arn)) in
    let add =
      unless_empty changes.0 (client.add_tags arn) (codes "acm: AddTagsToCertificate: ") prefer in
    unless_empty-Reconciled view arn goal key drop_tags (client.remove_tags arn)
      (codes "acm: RemoveTagsFromCertificate: ") changes.1 add w (unfold drop_tags in refl)
      (λ us out e. store.removes arn us w out e)
      (λ w₁ e₁.
        unless_empty-Reconciled view arn goal key set_tags (client.add_tags arn)
          (codes "acm: AddTagsToCertificate: ") changes.0 prefer w₁ (unfold set_tags in refl)
          (λ us out e. store.adds arn us w₁ out e)
          (λ w₂ e₂.
            sync_preference-Reconciled view arn goal key client store c (text_at preference prior)
              (text_at preference desired) w₂
              (ap (lookup key) (e₂ ∙ ap (set_tags changes.0) e₁)
                ∙ diff_tags-reconcile (tag_set_from_properties prior)
                    (tag_set_from_properties desired) (view w arn) key
                    (tag_set_from_properties-Distinct prior)
                    (tag_set_from_properties-Distinct desired) h)))

-- An update of a certificate whose stored tags are those of the prior properties, by a client that
-- keeps tags as ACM does, panics, gives an error, or gives a success after which the stored tags
-- are, at every key, those of the desired properties.
pub certificate_update-Reconciled {ℓ} :
    {W : Type ℓ} (c : Certificate W) (client : AcmClient W) (view : W → Text → Map Text)
    (request : UpdateRequest) (prior desired : Json) (key : Text) (w w' : W)
    → TagStore client view
    → c.acm_client w ≡ (succeed client, w')
    → decode_map c.codec request.prior_properties ≡ some prior
    → decode_map c.codec request.desired_properties ≡ some desired
    → lookup key (view w' request.native_id) ≡ lookup key (tag_set_from_properties (map_of prior))
    → Reconciled view request.native_id
        (lookup key (tag_set_from_properties (map_of desired)))
        key
        (certificate_update c request w)
unfolding certificate_update
certificate_update-Reconciled c client view request prior desired key w w' store built p d h =
    let arn = request.native_id in
    let rest = λ (x : Fields).
      decode_or c.codec (codes "acm: parse desired properties: ") request.desired_properties
        (sync c client arn x) in
    let handled =
      call_ok c.acm_client fail _ w w' client built
      ∙ (decode_or-some c.codec (codes "acm: parse prior properties: ") request.prior_properties
            rest w' prior p
          ∙ decode_or-some c.codec (codes "acm: parse desired properties: ")
              request.desired_properties (sync c client arn (map_of prior)) w' desired d) in
    subst (Reconciled view arn (lookup key (tag_set_from_properties (map_of desired))) key)
      (sym handled)
      (sync-Reconciled c client view arn (map_of prior) (map_of desired) key w' store h)

-- A panic, or a success for a certificate.
abbrev pub Created : Text → Outcome ProgressResult → Type 0
Created arn o =
    (o ≡ panicked)
    ⊎ ((pr : ProgressResult) × ((o ≡ succeed pr)
          × ((pr.operation_status ≡ success) × (pr.native_id ≡ arn))))

module _ {ℓ} {W : Type ℓ} (c : Certificate W) (arn : Text) where
  read_back-Created :
      (m : Io W (Outcome Fields)) (w : W) → Created arn (read_back c m (done_result create arn) w).0
  unfolding read_back
  read_back-Created m w =
      after_holds (Created arn) (inl refl) (m w).0 _ (m w).1
        (λ props err w'. inr (_, (refl, (refl, refl))))

  prefer-Created :
      (client : AcmClient W) (preference : Text) (k : Io W (Outcome ProgressResult)) (w : W)
      → ((w' : W) → Created arn (k w').0)
      → Created arn (prefer client arn preference k w).0
  unfolding prefer
  prefer-Created client preference k w h = elim (Bool-cases (is_empty preference)) [
    | inl e ↦ rw (prefer, e) (h w)
    | inr e ↦
        rw (prefer, e)
          (after_holds (Created arn) (inl refl) (client.update_options arn preference w).0
            (λ out err. k) (client.update_options arn preference w).1 (λ out err w'. h w'))
  ]

-- Once ACM has given an ARN for the certificate that the properties describe, a create panics or is
-- a success with that ARN, whether or not the preference can be set and the certificate be read.
pub certificate_create-Created {ℓ} :
    {W : Type ℓ} (c : Certificate W) (client : AcmClient W) (request : CreateRequest) (v : Json)
    (domain arn : Text) (w w₁ w₂ : W)
    → c.acm_client w ≡ (succeed client, w₁)
    → decode_map c.codec request.properties ≡ some v
    → get (codes "DomainName") (map_of v) ≡ some (string domain)
    → client.request_certificate (request_input domain (map_of v)) w₁ ≡ (succeed (some arn), w₂)
    → Created arn (certificate_create c request w).0
unfolding certificate_create send_request requested
certificate_create-Created c client request v domain arn w w₁ w₂ built p d asked =
    let domain_of = λ (x : Fields). get_string_property x (codes "DomainName") in
    let bad : GoError → Outcome ProgressResult =
      λ e. fail (wrap_error (codes "acm: invalid DomainName: ") e) in
    let rest = λ (x : Fields). unless_bad (domain_of x) bad (send_request c client x) in
    let named : domain_of (map_of v) ≡ inl domain = ap (string_or_error (codes "DomainName")) d in
    let handled : certificate_create c request w ≡ send_request c client (map_of v) domain w₁ =
      call_ok c.acm_client fail _ w w₁ client built
      ∙ (decode_or-some c.codec (codes "acm: parse properties: ") request.properties rest w₁ v p
          ∙ ap (λ o. unless_bad o bad (send_request c client (map_of v)) w₁) named) in
    subst (λ r. Created arn r.0) (sym handled)
      (rw (send_request, asked) (prefer-Created c arn client _ _ w₂ (read_back-Created c arn _)))
