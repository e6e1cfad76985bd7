-- ===== src/Plugin/Laws.antt =====
-- Which part of the plugin answers, and which resources a listing keeps.
use formae_plugin_aws.Prelude.{
  ◌≡◌, refl, sym, ap, ◌∙◌, subst, true, false, ◌&&◌, Option, some, List, [], ◌∷◌, if◌then◌else◌, Io,
  arith, Bool-cases, inl, inr, Member, ◌⊎◌, ◌↔◌,
}
use mathlib.Core.Option.{some-injective}
use formae_plugin_aws.Text.{Text, ◌===◌}
use formae_plugin_aws.Go.{Outcome}
use formae_plugin_aws.Sdk.{Operation}
use formae_plugin_aws.Json.{Codec}
use formae_plugin_aws.Registry.{Registry, has_provisioner, register}
use formae_plugin_aws.Registry.Laws.{among, get-register}
use formae_plugin_aws.Ccx.Cloud.{Cloud, Listed}
use formae_plugin_aws.Plugin.{Provisioner, Factory, skipped, native_ids, dispatch}
use formae_plugin_aws.Plugin.Filter.{Passes, skipped-Passes}

-- A description that the filter keeps, with its identifier.
abbrev Kept : Codec → List (Text × Text) → List Listed → Text → Type 0
Kept c filter ds id =
    (d : Listed) × (Member d ds × ((skipped c filter d ≡ false) × (d.identifier ≡ some id)))

module _ (c : Codec) (filter : List (Text × Text)) (d : Listed) (ds : List Listed) where
  later : (id : Text) → Kept c filter ds id → Kept c filter (d ∷ ds) id
  later id (x, (there, p)) = (x, (inr there, p))

  earlier :
      (id : Text)
      → Kept c filter (d ∷ ds) id
      → ((skipped c filter d ≡ false) × (d.identifier ≡ some id)) ⊎ Kept c filter ds id
  earlier id (x, (inl same, p)) =
      inl (
        subst (λ (y : Listed). (skipped c filter y ≡ false) × (y.identifier ≡ some id)) (sym same)
          p)
  earlier id (x, (inr there, p)) = inr (x, (there, p))

  -- The identifiers of a list whose first description is kept.
  native_ids-keep :
      (ids : List Text)
      → native_ids c filter (d ∷ ds) ≡ some ids
      → skipped c filter d ≡ false
      → (i : Text) × ((is : List Text) × ((d.identifier ≡ some i)
            × ((native_ids c filter ds ≡ some is) × (ids ≡ i ∷ is))))
  unfolding native_ids
  native_ids-keep ids e keep = ground (arith, keep)

-- A listing that does not panic names exactly the descriptions that the filter keeps, by their
-- identifiers.
native_ids-Member :
    (c : Codec) (filter : List (Text × Text)) (ds : List Listed) (ids : List Text) (id : Text)
    → native_ids c filter ds ≡ some ids
    → Member id ids
      ↔ (d : Listed) × (Member d ds × ((skipped c filter d ≡ false) × (d.identifier ≡ some id)))
unfolding native_ids
native_ids-Member c filter [] ids id e =
    let none_left = some-injective [] ids e in
    (
      λ there. absurd (subst (λ (l : List Text). Member id l) (sym none_left) there),
      λ (d, (there, _)). absurd there,
    )
native_ids-Member c filter (d ∷ ds) ids id e =
    elim (Bool-cases (skipped c filter d)) as (λ _. Member id ids ↔ Kept c filter (d ∷ ds) id) [
      | inl skip ↦
          let rest : native_ids c filter ds ≡ some ids = sym (rw (native_ids, skip)) ∙ e in
          let step = native_ids-Member c filter ds ids id rest in
          (
            λ there. later c filter d ds id (step.0 there),
            λ kept. elim (earlier c filter d ds id kept) [
              | inl (h, _) ↦ absurd (differ (sym skip ∙ h))
              | inr k ↦ step.1 k
            ],
          )
      | inr keep ↦
          let (i, (is, (own, (rest, split)))) = native_ids-keep c filter d ds ids e keep in
          let step = native_ids-Member c filter ds is id rest in
          rw split (
            λ there. elim there [
              | inl same ↦ (d, (inl refl, (keep, own ∙ ap (λ (x : Text). some x) same)))
              | inr l ↦ later c filter d ds id (step.0 l)
            ],
            λ kept. elim (earlier c filter d ds id kept) [
              | inl (_, h) ↦ inl (some-injective i id (sym own ∙ h))
              | inr k ↦ inr (step.1 k)
            ],
          )
    ]
  where
    differ : true ≡ false → ⊥
    differ x = ground arith

-- A listing that does not panic names exactly the descriptions that pass the filter, by their
-- identifiers. All of them pass an empty filter. Another one is passed unless the description has
-- properties that are a map in which one that the filter names is a string, or null, which counts
-- as the empty string, and not the text that the filter has for it.
pub native_ids-Passes :
    (c : Codec) (filter : List (Text × Text)) (ds : List Listed) (ids : List Text) (id : Text)
    → native_ids c filter ds ≡ some ids
    → Member id ids ↔ (d : Listed) × (Member d ds × (Passes c filter d × (d.identifier ≡ some id)))
native_ids-Passes c filter ds ids id e =
    let kept = native_ids-Member c filter ds ids id e in
    (
      λ h.
          let (d, (there, (k, own))) = kept.0 h in
          (d, (there, ((skipped-Passes c filter d).0 k, own))),
      λ (d, (there, (k, own))). kept.1 (d, (there, ((skipped-Passes c filter d).1 k, own))),
    )

module _ {ℓ} {W : Type ℓ} (registry : Registry (Factory W))
    (new_client : Option Text → Io W (Outcome (Cloud W))) where
  -- After a registration, a request for the registered type goes to the new provisioner if its
  -- operation is among the registered ones; any other request goes where it went before.
  pub dispatch-register :
      {B : Type 0} (name resource_type : Text) (ops : List Operation) (op : Operation)
      (factory : Factory W) (config : Option Text) (run : Provisioner W → Io W (Outcome B))
      (generic : Cloud W → Io W (Outcome B)) (w : W)
      → dispatch
          (register name ops factory registry)
          new_client
          resource_type
          op
          config
          run
          generic
          w
        ≡ (if name === resource_type && among op ops
            then run (factory config) w
            else dispatch registry new_client resource_type op config run generic w)
  unfolding dispatch has_provisioner
  dispatch-register name resource_type ops op factory config run generic w =
      elim (Bool-cases (name === resource_type && among op ops)) [
        | inl h ↦ rw (get-register name resource_type ops op factory registry) (rw h refl)
        | inr h ↦ rw (get-register name resource_type ops op factory registry) (rw h refl)
      ]
