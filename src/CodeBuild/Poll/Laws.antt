-- ===== src/CodeBuild/Poll/Laws.antt =====
-- What the poll of a build answers.
use formae_plugin_aws.Prelude.{
  ◌≡◌, refl, ◌⊎◌, inl, inr, false, ◌&&◌, not, Option, none, some, List, [], ◌∷◌, Io, Bool-cases,
  Either-cases, true,
}
use formae_plugin_aws.Text.{Text, codes, ◌===◌, is_empty}
use formae_plugin_aws.Go.{
  GoError, Outcome, returned, panicked, succeed, fail, wrap_error, unless_error, deref, call,
}
use formae_plugin_aws.Go.Laws.{after_known}
use formae_plugin_aws.Sdk.{Operation, success, failure, in_progress, ProgressResult, StatusRequest}
use formae_plugin_aws.CodeBuild.Client.{
  BuildOutputs, Build, BuildStatus, succeeded, running, ended, CodeBuildClient, EcrClient,
  ImageBuild, ImageDetail, by_digest,
}
use formae_plugin_aws.CodeBuild.Ids.{RequestState, encode_native_id, decode_request_id}
use formae_plugin_aws.CodeBuild.Input.{parse_ecr_repository_uri}
use formae_plugin_aws.CodeBuild.Images.{
  outputs_json, prune_described, or_go_on, prune_with, prune_prior_digest, has_tags,
}
use formae_plugin_aws.CodeBuild.Poll.{
  build_outputs_from_exports, is_after, finish_build, build_progress, operation_of, first_build,
  image_status,
}

module _ {ℓ} {W : Type ℓ} (a : ImageBuild W) (request : StatusRequest) (state : RequestState)
    (w : W) where
  -- From the world w, CodeBuild's client is there and is asked for the build of the request id.
  abbrev Asked : Outcome (List Build) → W → Type ℓ
  Asked o v =
      (client : CodeBuildClient W) × ((w₁ : W) × ((a.code_build w ≡ (succeed client, w₁))
          × (client.batch_get_builds (state.build_id ∷ []) w₁ ≡ (o, v))))

  -- There is no client, or no answer, or no build in it.
  abbrev pub Unanswered : W → Type ℓ
  Unanswered v =
      ((out : Option (CodeBuildClient W)) × ((e : GoError) × (a.code_build w
            ≡ (returned out (some e), v))))
      ⊎ (((out : Option (List Build)) × ((e : GoError) × Asked (returned out (some e)) v))
          ⊎ Asked (succeed []) v)

  -- A build that runs is in progress, and past its deadline, by the clock as it is read after the
  -- answer and last of all, a failure.
  abbrev Runs : W → ProgressResult × W → Type ℓ
  Runs v (pr, w') =
      (w' ≡ (a.now v).1)
      × (((is_after (a.now v).0 state.deadline ≡ false) × (pr.operation_status ≡ in_progress))
          ⊎ ((is_after (a.now v).0 state.deadline ≡ true) × (pr.operation_status ≡ failure)))

  -- A build that has succeeded is a success with its outputs if it exports them, else a failure.
  abbrev Succeeds : Build → ProgressResult → Type 0
  Succeeds build pr =
      ((e : GoError) × ((build_outputs_from_exports build.exports state ≡ inr e)
          × (pr.operation_status ≡ failure)))
      ⊎ ((outputs : BuildOutputs) × ((build_outputs_from_exports build.exports state ≡ inl outputs)
            × ((pr.operation_status ≡ success)
                × (pr.resource_properties ≡ some (a.codec.marshal (outputs_json outputs))))))

  -- The result says how the first build of the answer is.
  abbrev pub Settles : ProgressResult × W → Type ℓ
  Settles (pr, w') =
      (build : Build) × ((more : List Build) × ((v : W) × (Asked (succeed (build ∷ more)) v
            × (((build.build_status ≡ running) × Runs v (pr, w'))
                ⊎ (((build.build_status ≡ succeeded) × Succeeds build pr)
                    ⊎ ((why : Text) × ((build.build_status ≡ ended why)
                          × (pr.operation_status ≡ failure))))))))

  -- A panic; an error, only without a build; or a result with the ids of the build.
  abbrev pub Sound : Outcome ProgressResult × W → Type ℓ
  Sound (o, w') =
      (o ≡ panicked)
      ⊎ (((e : GoError) × ((o ≡ fail e) × Unanswered w'))
          ⊎ ((pr : ProgressResult) × ((o ≡ succeed pr)
                × ((pr.request_id ≡ request.request_id)
                    × ((pr.native_id ≡ encode_native_id state.repo_uri state.tag)
                        × Settles (pr, w'))))))

  told :
      (pr : ProgressResult) (w' : W)
      → pr.request_id ≡ request.request_id
      → pr.native_id ≡ encode_native_id state.repo_uri state.tag
      → Settles (pr, w')
      → Sound (succeed pr, w')
  told pr w' r n h = inr (inr (pr, (refl, (r, (n, h)))))

  prune_described-Sound :
      (client : EcrClient W) (repo digest : Text) (out : Option (List ImageDetail))
      (err : Option GoError) (k : Io W (Outcome ProgressResult)) (v : W)
      → ((w' : W) → Sound (k w'))
      → Sound (prune_described a client repo digest out err k v)
  unfolding prune_described
  prune_described-Sound client repo digest out (some e) k v h = h v
  prune_described-Sound client repo digest none none k v h = inl refl
  prune_described-Sound client repo digest (some details) none k v h =
      elim (Bool-cases (has_tags details)) [
        | inl tagged ↦ rw (prune_described, tagged) (h v)
        | inr untagged ↦
            rw (prune_described, untagged)
              (after_known Sound (client.batch_delete_image repo (by_digest digest))
                (λ failures err. k) v (λ w'. inl refl) (λ failures err w' asked. h w'))
      ]

  or_go_on-Sound :
      (err : Option GoError) (k rest : Io W (Outcome ProgressResult)) (v : W)
      → Sound (k v)
      → Sound (rest v)
      → Sound (or_go_on err k rest v)
  or_go_on-Sound (some e) k rest v h h' = h
  or_go_on-Sound none k rest v h h' = h'

  pruned_with-Sound :
      (client : Option (EcrClient W)) (repo digest : Text) (k : Io W (Outcome ProgressResult))
      (v : W)
      → ((w' : W) → Sound (k w'))
      → Sound (deref client (λ c. prune_with a c repo digest k) v)
  unfolding prune_with
  pruned_with-Sound none repo digest k v h = inl refl
  pruned_with-Sound (some c) repo digest k v h =
      after_known Sound (c.describe_images repo (by_digest digest)) _ v (λ w'. inl refl)
        (λ details e w' asked. prune_described-Sound c repo digest details e k w' h)

  prune_prior_digest-Sound :
      (uri digest : Text) (k : Io W (Outcome ProgressResult)) (v : W)
      → ((w' : W) → Sound (k w'))
      → Sound (prune_prior_digest a uri digest k v)
  unfolding prune_prior_digest
  prune_prior_digest-Sound uri digest k v h = elim (Either-cases (parse_ecr_repository_uri a uri)) [
    | inr (e, p) ↦ rw (prune_prior_digest, p) (h v)
    | inl (ref, p) ↦
        rw (prune_prior_digest, p)
          (after_known Sound a.ecr _ v (λ w'. inl refl)
            (λ client err w' asked.
              or_go_on-Sound err k _ w' (h w')
                (pruned_with-Sound client ref.repo_name digest k w' h)))
  ]

  -- From the first build of an answer on.
  module _ (build : Build) (more : List Build) (v : W) (asked : Asked (succeed (build ∷ more)) v)
      (op : Operation) where
    finish_build-Sound :
        (outputs : BuildOutputs)
        → build.build_status ≡ succeeded
        → build_outputs_from_exports build.exports state ≡ inl outputs
        → Sound (finish_build a op request state outputs v)
    unfolding finish_build
    finish_build-Sound outputs good e =
        let done = λ (w' : W).
          told _ w' refl refl
            (build, (more, (v, (asked, inr (inl (good, inr (outputs, (e, (refl, refl))))))))) in
        elim (Bool-cases (
          not (is_empty state.prior_digest) && not (state.prior_digest === outputs.image_digest))) [
            | inl prune ↦
                rw (finish_build, prune)
                  (prune_prior_digest-Sound state.repo_uri state.prior_digest _ v done)
            | inr keep ↦ rw (finish_build, keep) (done v)
          ]

    build_progress-Sound :
        (status : BuildStatus)
        → build.build_status ≡ status
        → Sound (build_progress a op request state build v)
    unfolding build_progress
    build_progress-Sound succeeded e =
        elim (Either-cases (build_outputs_from_exports build.exports state)) [
          | inr (x, p) ↦
              rw (build_progress, e, p)
                (told _ v refl refl
                  (build, (more, (v, (asked, inr (inl (e, inl (x, (p, refl)))))))))
          | inl (outputs, p) ↦ rw (build_progress, e, p) (finish_build-Sound outputs e p)
        ]
    build_progress-Sound running e = elim (Bool-cases (is_after (a.now v).0 state.deadline)) [
      | inl late ↦
          rw (build_progress, e, late)
            (told _ _ refl refl (build, (more, (v, (asked, inl (e, (refl, inr (late, refl))))))))
      | inr early ↦
          rw (build_progress, e, early)
            (told _ _ refl refl (build, (more, (v, (asked, inl (e, (refl, inl (early, refl))))))))
    ]
    build_progress-Sound (ended why) e =
        rw (build_progress, e)
          (told _ v refl refl (build, (more, (v, (asked, inr (inr (why, (e, refl))))))))

  first_build-Sound :
      (builds : List Build) (v : W)
      → Asked (succeed builds) v
      → Sound (first_build a request state builds v)
  first_build-Sound [] v asked = inr (inl (_, (refl, inr (inr asked))))
  first_build-Sound (build ∷ more) v asked =
      build_progress-Sound build more v asked (operation_of a state) build.build_status refl

  -- The answers of the two calls.
  answered-Sound :
      (client : CodeBuildClient W) (w₁ : W) (out : Option (List Build)) (err : Option GoError)
      (v : W)
      → a.code_build w ≡ (succeed client, w₁)
      → client.batch_get_builds (state.build_id ∷ []) w₁ ≡ (returned out err, v)
      → Sound (
          unless_error err
            (λ e. fail (wrap_error (codes "ImageBuild: getting build status: ") e))
            (deref out (first_build a request state))
            v)
  answered-Sound client w₁ out (some e) v built asked =
      inr (inl (_, (refl, inr (inl (out, (e, (client, (w₁, (built, asked)))))))))
  answered-Sound client w₁ none none v built asked = inl refl
  answered-Sound client w₁ (some builds) none v built asked =
      first_build-Sound builds v (client, (w₁, (built, asked)))

  built-Sound :
      (out : Option (CodeBuildClient W)) (err : Option GoError) (w₁ : W)
      → a.code_build w ≡ (returned out err, w₁)
      → Sound (
          unless_error err fail
            (deref out (λ client.
              call
                (client.batch_get_builds (state.build_id ∷ []))
                (λ e. fail (wrap_error (codes "ImageBuild: getting build status: ") e))
                (first_build a request state)))
            w₁)
  unfolding call
  built-Sound out (some e) w₁ built = inr (inl (e, (refl, inl (out, (e, built)))))
  built-Sound none none w₁ built = inl refl
  built-Sound (some client) none w₁ built =
      after_known Sound (client.batch_get_builds (state.build_id ∷ [])) _ w₁ (λ v. inl refl)
        (λ out err v asked. answered-Sound client w₁ out err v built asked)

-- A poll of a build panics, gives an error, which is only without a build to look at, or gives a
-- result under the ids of the request and of the build, which says how the build is that CodeBuild
-- describes. A build that runs is in progress up to the deadline of the request id, by the clock
-- as it is read last, and a failure after it. One that has succeeded is a success with its outputs
-- if it exports them, and else a failure. One that has ended in any other way is a failure.
pub image_status-Sound {ℓ} :
    {W : Type ℓ} (a : ImageBuild W) (request : StatusRequest) (state : RequestState) (w : W)
    → decode_request_id a request.request_id ≡ inl state
    → Sound a request state w (image_status a request w)
unfolding image_status call
image_status-Sound a request state w e = rw (e) (
    after_known (Sound a request state w) a.code_build _ w (λ v. inl refl)
      (λ out err w₁ built. built-Sound a request state w out err w₁ built))
