-- ===== src/CodeBuild/Builds/Laws.antt =====
-- How often a project is created.
use formae_plugin_aws.Prelude.Int.{ℤ, pos}
use formae_plugin_aws.Prelude.{
  ℕ, zero, suc, ◌+◌, ◌≤◌, ◌≡◌, inl, inr, arith, Option, none, some, List, [], ◌∷◌, Io, Bool-cases,
}
use formae_plugin_aws.Text.{Text, codes}
use formae_plugin_aws.Go.{
  GoError, Outcome, returned, panicked, after, deref, unless_error, attempt, call,
}
use formae_plugin_aws.CodeBuild.Client.{BuildInput, Project, CodeBuildClient, ImageBuild}
use formae_plugin_aws.CodeBuild.Builds.{
  wrapped, is_assume_role_propagation_error, after_creation, create_from, project_of,
  update_or_create, ensure_project,
}

-- A number that counts the creations of projects in the world, which the other calls for a project
-- and sleeping leave alone.
pub record Counts {ℓ} {W : Type ℓ} (a : ImageBuild W) (client : CodeBuildClient W) (count : W → ℕ)
    : Type ℓ where
  pub creates : (p : Project) (w : W) → count (client.create_project p w).1 ≡ suc (count w)
  pub updates : (p : Project) (w : W) → count (client.update_project p w).1 ≡ count w
  pub looks : (names : List Text) (w : W) → count (client.batch_get_projects names w).1 ≡ count w
  pub sleeps : (d : ℤ) (w : W) → count (a.sleep d w) ≡ count w

module _ {ℓ} {W : Type ℓ} (a : ImageBuild W) (client : CodeBuildClient W) (count : W → ℕ)
    (c : Counts a client count) {B : Type 0} (k : Io W (Outcome B))
    (quiet : (w : W) → count (k w).1 ≡ count w) where
  -- `m` counts at most `n` creations.
  abbrev Spends : ℕ → Io W (Outcome B) → Type ℓ
  Spends n m = (w : W) → count (m w).1 ≤ count w + n

  after_creation-Spends :
      (n : ℕ) (err : Option GoError) (next : Io W (Outcome B))
      → Spends n next
      → Spends n (after_creation a err next k)
  unfolding after_creation
  after_creation-Spends n none next h w = omega (arith, quiet w)
  after_creation-Spends n (some e) next h w =
      elim (Bool-cases (is_assume_role_propagation_error a e)) [
        | inl race ↦
            rw (after_creation, race)
              (omega (arith, c.sleeps (pos 3000000000) w, h (a.sleep (pos 3000000000) w)))
        | inr other ↦ rw (after_creation, other) (omega arith)
      ]

  unless_error-Spends :
      (n : ℕ) (err : Option GoError) (f : GoError → Outcome B) (rest : Io W (Outcome B))
      → Spends n rest
      → Spends n (unless_error err f rest)
  unless_error-Spends n (some e) f rest h w = omega arith
  unless_error-Spends n none f rest h w = h w

  after-Spends :
      {A : Type 0} (n : ℕ) (o : Outcome A) (rest : Option A → Option GoError → Io W (Outcome B))
      → ((out : Option A) (err : Option GoError) → Spends n (rest out err))
      → Spends n (after o rest)
  after-Spends n panicked rest h w = omega arith
  after-Spends n (returned out err) rest h w = h out err w

  deref-Spends :
      {A : Type 0} (n : ℕ) (o : Option A) (rest : A → Io W (Outcome B))
      → ((x : A) → Spends n (rest x))
      → Spends n (deref o rest)
  deref-Spends n none rest h w = omega arith
  deref-Spends n (some x) rest h w = h x w

  -- What a call counts, and what its rest does.
  attempt-count :
      {A : Type 0} (n : ℕ) (m : Io W (Outcome A)) (f : GoError → Outcome B)
      (rest : Io W (Outcome B)) (w : W)
      → Spends n rest
      → count (attempt m f rest w).1 ≤ count (m w).1 + n
  unfolding attempt
  attempt-count n m f rest w h =
      after-Spends n (m w).0 (λ out err. unless_error err f rest)
        (λ out err. unless_error-Spends n err f rest h) (m w).1

  call-count :
      {A : Type 0} (n : ℕ) (m : Io W (Outcome A)) (f : GoError → Outcome B)
      (rest : A → Io W (Outcome B)) (w : W)
      → ((x : A) → Spends n (rest x))
      → count (call m f rest w).1 ≤ count (m w).1 + n
  unfolding call
  call-count n m f rest w h =
      after-Spends n (m w).0 (λ out err. unless_error err f (deref out rest))
        (λ out err. unless_error-Spends n err f (deref out rest) (deref-Spends n out rest h))
        (m w).1

  k-Spends : (n : ℕ) → Spends n k
  k-Spends n w = omega (arith, quiet w)

  create_from-Spends :
      (project : Project) (left : ℕ) → Spends (suc left) (create_from a client project left k)
  unfolding create_from
  create_from-Spends project zero w = omega (
    arith,
    c.creates project w,
    attempt-count 0 (client.create_project project)
        (wrapped (codes "ImageBuild: creating build project: ")) k w (k-Spends 0),
  )
  create_from-Spends project (suc left) w =
      let next = create_from a client project left k in
      omega (
        arith,
        c.creates project w,
        after-Spends (suc left) (client.create_project project w).0
            (λ out err. after_creation a err next k)
            (λ out err. after_creation-Spends (suc left) err next (create_from-Spends project left))
            (client.create_project project w).1,
      )

  update_or_create-Spends :
      (project : Project) (found : List Text) → Spends 8 (update_or_create a client project found k)
  update_or_create-Spends project [] w = create_from-Spends project 7 w
  update_or_create-Spends project (x ∷ more) w = omega (
    arith,
    c.updates project w,
    attempt-count 8 (client.update_project project)
        (wrapped (codes "ImageBuild: updating build project: ")) k w (k-Spends 8),
  )

  -- Making sure of a project, with a rest that creates none, creates it at most eight times, whatever
  -- the answers of CodeBuild are: the wait for a role that is new comes to an end.
  pub ensure_project-calls :
      (input : BuildInput) (name role : Text) (w : W)
      → count (ensure_project a client input name role k w).1 ≤ count w + 8
  unfolding ensure_project
  ensure_project-calls input name role w =
      let project = project_of a input name role in
      omega (
        arith,
        c.looks (name ∷ []) w,
        call-count 8 (client.batch_get_projects (name ∷ []))
            (wrapped (codes "ImageBuild: looking up build project: "))
            (λ found. update_or_create a client project found k) w
            (update_or_create-Spends project),
      )
