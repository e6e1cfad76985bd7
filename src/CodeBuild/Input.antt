-- ===== src/CodeBuild/Input.antt =====
-- build.go: the parsing, the defaults and the validation of the input, its hash, the names of the
-- resources that a build needs, and the policies of its role.
use formae_plugin_aws.Prelude.Int.{ℤ, pos, ltb_ℤ}
use formae_plugin_aws.Prelude.{
  Bool, true, false, ◌&&◌, ◌||◌, not, Option, none, some, List, [], ◌∷◌, ◌++◌, if◌then◌else◌, ◌⊎◌,
  inl, inr, zero, suc, ℕ,
}
use formae_plugin_aws.Text.{Text, codes, is_empty, contains}
use formae_plugin_aws.Text.Decimal.{format_int}
use formae_plugin_aws.Go.{GoError, new_error}
use formae_plugin_aws.Json.{Json, Items, Fields, string, array, object, nil, cons, end, field}
use formae_plugin_aws.Maps.{Map, lookup}
use formae_plugin_aws.Properties.{or_empty}
use formae_plugin_aws.Ecs.Endpoints.Retries.{one_of}
use formae_plugin_aws.Ecs.Endpoints.Collect.{sort_strings}
use formae_plugin_aws.CodeBuild.Client.{BuildInput, RepositoryRef, ImageBuild}

abbrev pub or_default : Text → Text → Text
or_default [] d = d
or_default (c ∷ s) d = c ∷ s

abbrev pub is_zero : ℤ → Bool
is_zero (pos zero) = true
is_zero _ = false

unfoldable pub normalize_input : BuildInput → BuildInput
normalize_input input = record input {
  compute_type = or_default input.compute_type (codes "BUILD_GENERAL1_SMALL");
  timeout_minutes = if is_zero input.timeout_minutes then pos 30 else input.timeout_minutes;
  build_environment_image =
      or_default input.build_environment_image (codes "aws/codebuild/standard:7.0");
}

abbrev compute_types : List Text
compute_types =
    codes "BUILD_GENERAL1_SMALL" ∷ codes "BUILD_GENERAL1_MEDIUM" ∷ codes "BUILD_GENERAL1_LARGE" ∷ []

abbrev keys_of : Map Text → List Text
keys_of [] = []
keys_of ((k, v) ∷ m) = k ∷ keys_of m

-- The lines of the keys, in the order of the keys, each after a prefix.
abbrev lines_of : Text → Map Text → List Text → Text
lines_of prefix m [] = []
lines_of prefix m (k ∷ ks) =
    prefix ++ (k ++ (codes "=" ++ (or_empty (lookup k m) ++ (10 ∷ lines_of prefix m ks))))

unfoldable pub build_args_file : Map Text → Text
unfolding sort_strings
build_args_file m = lines_of [] m (sort_strings (keys_of m))

abbrev line : Text → Text → Text
line prefix s = prefix ++ (s ++ (10 ∷ []))

abbrev pub image_uri : Text → Text → Text
image_uri uri tag = uri ++ b':' ∷ tag

-- The first twelve characters of a text.
abbrev take : ℕ → Text → Text
take zero s = []
take (suc n) [] = []
take (suc n) (c ∷ s) = c ∷ take n s

module _ {ℓ} {W : Type ℓ} (a : ImageBuild W) where
  abbrev uri_error : Text → Text → GoError
  uri_error uri msg = new_error (codes "invalid ecrRepositoryUri " ++ (a.quote uri ++ msg))

  unfoldable pub parse_ecr_repository_uri : Text → RepositoryRef ⊎ GoError
  parse_ecr_repository_uri uri = elim (a.match_repository_uri uri) [
    | none ↦
        inr
          (uri_error uri (codes ": expected <account>.dkr.ecr.<region>.amazonaws.com/<repository>"))
    | some (account, (region, repo)) ↦
        if contains (codes ":") repo || contains (codes "@") repo
        then inr (uri_error uri (codes ": repository must not include a tag or digest"))
        else inl (record {
          account_id = account;
          region = region;
          repo_name = repo;
          registry = account ++ (codes ".dkr.ecr." ++ (region ++ codes ".amazonaws.com"));
          uri = uri;
        })
  ]

  abbrev error_of {κ} : {A : Type κ} → A ⊎ GoError → Option GoError
  error_of (inl x) = none
  error_of (inr e) = some e

  unfoldable bad_key : List Text → Option GoError
  bad_key [] = none
  bad_key (k ∷ ks) =
      let rest = bad_key ks in
      if a.matches_build_arg_key k
      then rest
      else some (new_error (codes "invalid buildArg key " ++ a.quote k))

  -- The checks one after the other; the first that fails is the error.
  abbrev check : Bool → Text → Option GoError → Option GoError
  check fails msg rest = if fails then some (new_error msg) else rest

  abbrev first_error : Option GoError → Option GoError → Option GoError
  first_error (some e) rest = some e
  first_error none rest = rest

  unfoldable pub validate_input : BuildInput → Option GoError
  unfolding bad_key parse_ecr_repository_uri one_of
  validate_input input =
      check (is_empty input.ecr_repository_uri) (codes "ecrRepositoryUri is required") (
        first_error (error_of (parse_ecr_repository_uri input.ecr_repository_uri)) (
          check (is_empty input.image_tag) (codes "imageTag is required") (
            check (not (a.matches_image_tag input.image_tag))
              (codes "invalid imageTag " ++ a.quote input.image_tag)
              (check (is_empty input.dockerfile) (codes "dockerfile is required") (
                check
                  (not (is_empty input.compute_type)
                    && not (one_of compute_types input.compute_type))
                  (codes "invalid computeType " ++ a.quote input.compute_type)
                  (check
                    (not (is_zero input.timeout_minutes)
                      && (ltb_ℤ input.timeout_minutes (pos 5)
                          || ltb_ℤ (pos 60) input.timeout_minutes))
                    (codes "timeoutMinutes must be between 5 and 60, got "
                      ++ format_int input.timeout_minutes)
                    (bad_key (keys_of input.build_args))))))))

  unfoldable pub compute_build_config_hash : BuildInput → Text
  unfolding normalize_input sort_strings
  compute_build_config_hash input =
      let n = normalize_input input in
      a.sha256_hex (
        line (codes "v=") (codes "2")
        ++ (line (codes "dockerfile=") n.dockerfile
            ++ (line (codes "compute=") n.compute_type
                ++ (line (codes "env=") n.build_environment_image
                    ++ lines_of (codes "arg=") n.build_args
                        (sort_strings (keys_of n.build_args))))))

  -- The names of the project and of the role.
  unfoldable pub resource_names : Text → Text → Text × Text
  resource_names uri tag =
      let short = take 12 (a.sha256_hex (uri ++ b'|' ∷ tag)) in
      (codes "formae-imgbuild-" ++ short, codes "formae-imgbuild-" ++ (short ++ codes "-role"))

  abbrev texts : List Text → Json
  texts ts = array (items ts)
    where
      items : List Text → Items
      items [] = nil
      items (t ∷ us) = cons (string t) (items us)

  abbrev policy : Items → Text
  policy statements = a.codec.marshal (
      object (
        field (codes "Version") (string (codes "2012-10-17"))
          (field (codes "Statement") (array statements) end)))

  abbrev allow : Fields → Json
  allow m = object (field (codes "Effect") (string (codes "Allow")) m)

  unfoldable pub build_trust_policy : Text
  build_trust_policy = policy (
      cons
        (allow (
          field (codes "Action") (texts (codes "sts:AssumeRole" ∷ [])) (
            field (codes "Principal")
              (object (field (codes "Service") (string (codes "codebuild.amazonaws.com")) end))
              end)))
        nil)

  unfoldable pub build_inline_policy : RepositoryRef → Text → Text
  build_inline_policy ref project =
      let repo_arn =
        codes "arn:aws:ecr:"
        ++ (ref.region
            ++ (codes ":" ++ (ref.account_id ++ (codes ":repository/" ++ ref.repo_name)))) in
      let log_arn =
        codes "arn:aws:logs:"
        ++ (ref.region
            ++ (codes ":"
                ++ (ref.account_id ++ (codes ":log-group:/aws/codebuild/" ++ project)))) in
      policy (
        cons
          (allow (
            field (codes "Action") (texts (codes "ecr:GetAuthorizationToken" ∷ []))
              (field (codes "Resource") (string (codes "*")) end)))
          (cons
            (allow (
              field (codes "Action")
                (texts (
                  codes "ecr:BatchCheckLayerAvailability"
                  ∷ codes "ecr:GetDownloadUrlForLayer"
                  ∷ codes "ecr:BatchGetImage"
                  ∷ codes "ecr:DescribeImages"
                  ∷ codes "ecr:ListImages"
                  ∷ codes "ecr:InitiateLayerUpload"
                  ∷ codes "ecr:UploadLayerPart"
                  ∷ codes "ecr:CompleteLayerUpload"
                  ∷ codes "ecr:PutImage"
                  ∷ []))
                (field (codes "Resource") (string repo_arn) end)))
            (cons
              (allow (
                field (codes "Action")
                  (texts (
                    codes "logs:CreateLogGroup"
                    ∷ codes "logs:CreateLogStream"
                    ∷ codes "logs:PutLogEvents"
                    ∷ []))
                  (field (codes "Resource") (texts (log_arn ∷ (log_arn ++ codes ":*") ∷ [])) end)))
              nil)))
