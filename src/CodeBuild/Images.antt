-- ===== src/CodeBuild/Images.antt =====
-- The images of the repository, from imagebuild.go: Read, tagMatchesDigest, deletePushedImage and
-- prunePriorDigest. What only logs is left out.
use formae_plugin_aws.Prelude.{
  Bool, true, false, Option, none, some, List, [], ◌∷◌, ◌++◌, if◌then◌else◌, Io, inl, inr,
}
use formae_plugin_aws.Text.{Text, codes, ◌===◌, is_empty}
use formae_plugin_aws.Go.{
  GoError, new_error, wrap_error, Outcome, panicked, succeed, fail, after, deref, call,
}
use formae_plugin_aws.Sdk.{no_code, not_found, ReadRequest, ReadResult}
use formae_plugin_aws.Json.{Json, Fields, string, object, end, field}
use formae_plugin_aws.Properties.{or_empty, unless_bad}
use formae_plugin_aws.CodeBuild.Client.{
  BuildOutputs, RepositoryRef, by_tag, by_digest, ImageDetail, ImageFailure, EcrClient, ImageBuild,
}
use formae_plugin_aws.CodeBuild.Ids.{parse_native_id}
use formae_plugin_aws.CodeBuild.Input.{parse_ecr_repository_uri, image_uri}

abbrev stated : Text → Text → Fields → Fields
stated key [] m = m
stated key (c ∷ s) m = field key (string (c ∷ s)) m

-- json.Marshal of imageBuildOutputs: empty fields are left out.
abbrev pub outputs_json : BuildOutputs → Json
outputs_json o = object (
    stated (codes "ImageRef") o.image_ref (
      stated (codes "ImageDigest") o.image_digest (
        stated (codes "ImageUri") o.image_uri (
          stated (codes "ImageTag") o.image_tag
            (stated (codes "BuildConfigHash") o.build_config_hash end)))))

-- The digest of the first image, or the empty string.
abbrev first_digest : List ImageDetail → Text
first_digest [] = []
first_digest (d ∷ ds) = or_empty d.image_digest

abbrev pub has_tags : List ImageDetail → Bool
has_tags [] = false
has_tags (d ∷ ds) = elim d.image_tags [ [] ↦ false | _ ∷ _ ↦ true ]

unfoldable first_failure : List ImageFailure → Option ImageFailure
first_failure [] = none
first_failure (f ∷ fs) =
    let rest = first_failure fs in if f.is_image_not_found then rest else some f

-- of an output that may be nil
abbrev first_image_failure : Option (List ImageFailure) → Option ImageFailure
first_image_failure none = none
first_image_failure (some fs) = first_failure fs

abbrev missing_image : ReadRequest → ReadResult
missing_image request = record {
  resource_type = request.resource_type;
  properties = [];
  error_code = not_found;
}

-- The error of a call, unless it says that there is nothing.
abbrev pub present_error : Option GoError → Option GoError
present_error none = none
present_error (some e) = if e.is_missing then none else some e

-- if err != nil { return }, in a function without a result
abbrev pub or_go_on {ℓ κ} : {W : Type ℓ} {B : Type κ} → Option GoError → Io W B → Io W B → Io W B
or_go_on (some e) k rest = k
or_go_on none k rest = rest

module _ {ℓ} {W : Type ℓ} (a : ImageBuild W) where
  abbrev image_result : ReadRequest → RepositoryRef → Text → List ImageDetail → ReadResult
  image_result request ref tag details =
      let digest = first_digest details in
      if is_empty digest then missing_image request else record {
        resource_type = request.resource_type;
        properties = a.codec.marshal (
            outputs_json (record {
              image_ref = ref.uri ++ (codes "@" ++ digest);
              image_digest = digest;
              image_uri = image_uri ref.uri tag;
              image_tag = tag;
              build_config_hash = [];
            }));
        error_code = no_code;
      }

  abbrev describe_failure : ReadRequest → GoError → Outcome ReadResult
  describe_failure request e =
      if e.is_missing
      then succeed (missing_image request)
      else fail (wrap_error (codes "ImageBuild: describing image: ") e)

  unfoldable image_read : ReadRequest → Io W (Outcome ReadResult)
  image_read request = unless_bad (parse_native_id a request.native_id) fail (λ (uri, tag).
      unless_bad (parse_ecr_repository_uri a uri) fail (λ ref. call a.ecr fail (λ client.
        call (client.describe_images ref.repo_name (by_tag tag)) (describe_failure request)
          (λ details w. (succeed (image_result request ref tag details), w)))))

  abbrev match_failure : GoError → Outcome Bool
  match_failure e =
      if e.is_missing
      then succeed false
      else fail (wrap_error (codes "ImageBuild: checking pushed tag: ") e)

  abbrev digest_is : Text → List ImageDetail → Bool
  digest_is digest [] = false
  digest_is digest (d ∷ ds) = or_empty d.image_digest === digest

  unfoldable pub tag_matches_digest : Text → Text → Io W (Outcome Bool)
  tag_matches_digest id [] w = (succeed false, w)
  tag_matches_digest id (c ∷ s) w =
      unless_bad (parse_native_id a id) fail
        (λ (uri, tag). unless_bad (parse_ecr_repository_uri a uri) fail (λ ref.
          call a.ecr fail (λ client.
            call (client.describe_images ref.repo_name (by_tag tag)) match_failure
              (λ details w'. (succeed (digest_is (c ∷ s) details), w')))))
        w

  -- What is left of a delete after the call: an error, or the first failure of an image.
  abbrev deleted_image : Option (List ImageFailure) → Option GoError → Option GoError
  deleted_image out err = elim (present_error err) [
    | some e ↦ some (wrap_error (codes "ImageBuild: deleting pushed image: ") e)
    | none ↦ elim (first_image_failure out) [
      | some f ↦ some (
          new_error (
            codes "ImageBuild: deleting pushed image: "
            ++ (or_empty f.failure_reason ++ (codes " (" ++ (f.failure_code ++ codes ")")))))
      | none ↦ none
    ]
  ]

  -- An error, if any, and the rest of the caller otherwise.
  unfoldable pub delete_pushed_image :
      {B : Type 0} → Text → Text → Io W (Outcome B) → Io W (Outcome B)
  unfolding first_failure
  delete_pushed_image uri tag k =
      unless_bad (parse_ecr_repository_uri a uri) (λ e. fail (wrap_error (codes "ImageBuild: ") e))
        (λ ref. call a.ecr fail (λ client w.
          let sent = client.batch_delete_image ref.repo_name (by_tag tag) w in
          after sent.0
            (λ out err. elim (deleted_image out err) [ some e ↦ λ w'. (fail e, w') | none ↦ k ])
            sent.1))

  -- The second half of prunePriorDigest, on the images that the digest has.
  unfoldable pub prune_described :
      {B : Type 0}
      → EcrClient W
      → Text
      → Text
      → Option (List ImageDetail)
      → Option GoError
      → Io W (Outcome B)
      → Io W (Outcome B)
  prune_described client repo digest out (some e) k w = k w
  prune_described client repo digest none none k w = (panicked, w)
  prune_described client repo digest (some details) none k w =
      let sent = client.batch_delete_image repo (by_digest digest) w in
      let deleted = after sent.0 (λ failures err. k) sent.1 in
      if has_tags details then k w else deleted

  unfoldable pub prune_with :
      {B : Type 0} → EcrClient W → Text → Text → Io W (Outcome B) → Io W (Outcome B)
  unfolding prune_described
  prune_with client repo digest k w =
      let asked = client.describe_images repo (by_digest digest) w in
      after asked.0 (λ details e. prune_described client repo digest details e k) asked.1

  -- Its errors are only logged, so that the caller goes on after it in any case.
  unfoldable pub prune_prior_digest :
      {B : Type 0} → Text → Text → Io W (Outcome B) → Io W (Outcome B)
  unfolding prune_with
  prune_prior_digest uri digest k w = elim (parse_ecr_repository_uri a uri) [
    | inr e ↦ k w
    | inl ref ↦
        let built = a.ecr w in
        after built.0
          (λ client err. or_go_on err k (deref client (λ c. prune_with c ref.repo_name digest k)))
          built.1
  ]
