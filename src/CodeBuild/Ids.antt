-- ===== src/CodeBuild/Ids.antt =====
-- The codecs of native ids and request ids, from imagebuild.go.
pub mod Laws
use formae_plugin_aws.Prelude.{
  ℕ, zero, suc, Bool, ◌||◌, Option, none, some, List, [], ◌∷◌, ◌++◌, if◌then◌else◌, ◌⊎◌, inl, inr,
}
use formae_plugin_aws.Text.{Text, codes, is_empty, cut, join}
use formae_plugin_aws.Go.{GoError, new_error, wrap_error}
use formae_plugin_aws.Ecs.Timeout.{Time}
use formae_plugin_aws.CodeBuild.Client.{ImageBuild}

abbrev pub encode_native_id : Text → Text → Text
encode_native_id uri tag = uri ++ b'|' ∷ tag

-- strings.SplitN(s, sep, n + 1): at most n cuts, from the left.
unfoldable pub split_n : ℕ → ℕ → Text → List Text
split_n sep zero s = s ∷ []
split_n sep (suc n) s =
    let (a, more) = cut sep s in elim more [ none ↦ a ∷ [] | some r ↦ a ∷ split_n sep n r ]

-- requestState
pub record RequestState : Type 0 where
  pub operation : Text
  pub build_id : Text
  pub repo_uri : Text
  pub tag : Text
  pub deadline : Time
  pub build_config_hash : Text
  pub prior_digest : Text

module _ {ℓ} {W : Type ℓ} (a : ImageBuild W) where
  abbrev invalid_native_id : Text → GoError
  invalid_native_id id =
      new_error
        (codes "invalid NativeID " ++ (a.quote id ++ codes ": expected <repositoryUri>|<tag>"))

  abbrev pair_of : Text → List Text → (Text × Text) ⊎ GoError
  pair_of id (uri ∷ tag ∷ []) =
      if is_empty uri || is_empty tag then inr (invalid_native_id id) else inl (uri, tag)
  pair_of id _ = inr (invalid_native_id id)

  unfoldable pub parse_native_id : Text → (Text × Text) ⊎ GoError
  unfolding split_n
  parse_native_id id = pair_of id (split_n b'|' 1 id)

  unfoldable pub encode_request_id : RequestState → Text
  encode_request_id s = join (codes "|") (
      s.operation
      ∷ s.build_id
      ∷ s.repo_uri
      ∷ s.tag
      ∷ a.format_time s.deadline
      ∷ s.build_config_hash
      ∷ s.prior_digest
      ∷ [])

  abbrev pub timed_state :
      Text → Text → Text → Text → Text → Option Time → Text → Text → RequestState ⊎ GoError
  timed_state op build uri tag time none hash prior =
      inr (wrap_error (codes "invalid deadline in RequestID: ") (a.time_error time))
  timed_state op build uri tag time (some deadline) hash prior = inl (record {
    operation = op;
    build_id = build;
    repo_uri = uri;
    tag = tag;
    deadline = deadline;
    build_config_hash = hash;
    prior_digest = prior;
  })

  abbrev pub state_of : Text → List Text → RequestState ⊎ GoError
  state_of id (op ∷ build ∷ uri ∷ tag ∷ time ∷ hash ∷ prior ∷ []) =
      timed_state op build uri tag time (a.parse_time time) hash prior
  state_of id _ = inr (new_error (codes "invalid RequestID " ++ a.quote id))

  unfoldable pub decode_request_id : Text → RequestState ⊎ GoError
  decode_request_id id = state_of id (split_n b'|' 6 id)
