-- ===== src/Plugin/Filter.antt =====
-- What the filter of a listing lets pass: matchesFilter of aws.go, and when List skips a resource.
use formae_plugin_aws.Prelude.{
  ◌≡◌, refl, sym, ◌∙◌, subst, Bool, true, false, not, Option, none, Option-cases, some, List, [],
  ◌∷◌, if◌then◌else◌, arith, Bool-cases, inl, inr, All, ◌⊎◌, ◌↔◌,
}
use mathlib.Core.Option.{some-injective}
use formae_plugin_aws.Text.{Text, ◌===◌}
use formae_plugin_aws.Json
use formae_plugin_aws.Json.{Json, Fields, Codec}
use formae_plugin_aws.Text.Equality.{eq_iff}
use formae_plugin_aws.Ccx.Read.{decode_map, map_of}
use formae_plugin_aws.Ccx.Cloud.{Listed}
use formae_plugin_aws.Plugin.{differs, matches_fields, matches_filter, skipped}

not_eq : (s t : Text) → (not (s === t) ≡ false) ↔ (s ≡ t)
not_eq s t = elim (Bool-cases (s === t)) [
  | inl e ↦ rw e (λ _. (eq_iff s t).0 e, λ _. refl)
  | inr e ↦ rw e (λ h. ground (arith, h), λ p. ground (arith, e, (eq_iff s t).1 p))
]

passed : (b rest : Bool) → (if b then false else rest) ≡ true → (b ≡ false) × (rest ≡ true)
passed b rest e = ground arith

passing : (b rest : Bool) → b ≡ false → rest ≡ true → (if b then false else rest) ≡ true
passing b rest e e' = ground arith

-- Properties pass the filter exactly if none of them that the filter names, and that is a string or
-- null, has another value; null counts as the empty string.
matches_fields_lem :
    (props : Fields) (filter : List (Text × Text))
    → matches_fields props filter ≡ true
      ↔ All (λ entry. differs (Json.get entry.0 props) entry.1 ≡ false) filter
unfolding matches_fields
matches_fields_lem props [] = (λ _. tt, λ _. refl)
matches_fields_lem props ((k, v) ∷ filter) = (
  λ e.
      let both = passed (differs (Json.get k props) v) (matches_fields props filter) e in
      (both.0, (matches_fields_lem props filter).0 both.1),
  λ (same, rest).
      passing (differs (Json.get k props) v) (matches_fields props filter) same
        ((matches_fields_lem props filter).1 rest),
)

-- A property agrees with the text that the filter has for it: as a string, or as null with the empty
-- text. One that is not there or of another type agrees with any text.
abbrev pub Agrees : Option Json → Text → Type 0
Agrees (some (Json.string s)) value = s ≡ value
Agrees (some Json.null) value = [] ≡ value
Agrees _ value = Unit

differs-Agrees : (o : Option Json) (value : Text) → (differs o value ≡ false) ↔ Agrees o value
differs-Agrees none value = (λ _. tt, λ _. refl)
differs-Agrees (some (Json.string s)) value = not_eq s value
differs-Agrees (some Json.null) value = not_eq [] value
differs-Agrees (some (Json.bool b)) value = (λ _. tt, λ _. refl)
differs-Agrees (some (Json.number n)) value = (λ _. tt, λ _. refl)
differs-Agrees (some (Json.array xs)) value = (λ _. tt, λ _. refl)
differs-Agrees (some (Json.object m)) value = (λ _. tt, λ _. refl)

-- Properties pass a filter: there are none, or none that can be decoded to a map, or all those that
-- the filter names agree with it.
abbrev pub PassesBy : Codec → List (Text × Text) → Option Text → Type 0
PassesBy c filter o =
    (o ≡ none)
    ⊎ ((p : Text) × ((o ≡ some p)
          × ((decode_map c p ≡ none)
              ⊎ ((v : Json) × ((decode_map c p ≡ some v)
                    × All (λ entry. Agrees (Json.get entry.0 (map_of v)) entry.1) filter)))))

-- A description passes an empty filter, and any other one if its properties do.
abbrev pub Passes : Codec → List (Text × Text) → Listed → Type 0
Passes c filter d = (filter ≡ []) ⊎ PassesBy c filter d.properties

some_is_given : {A : Type 0} {a : A} → ¬ (some a ≡ none)
some_is_given e = ground (arith, e)

cons_is_full : {A : Type 0} {a : A} {as' : List A} → ¬ (a ∷ as' ≡ [])
cons_is_full e = ground (arith, e)

each_iff :
    {A : Type 0} (P Q : A → Type 0) (xs : List A) → ((x : A) → P x ↔ Q x) → All P xs ↔ All Q xs
each_iff P Q [] h = (λ _. tt, λ _. tt)
each_iff P Q (x ∷ xs) h =
    let rest = each_iff P Q xs h in
    (λ (p, ps). ((h x).0 p, rest.0 ps), λ (q, qs). ((h x).1 q, rest.1 qs))

denied_iff : (b : Bool) → (not b ≡ false) ↔ (b ≡ true)
denied_iff true = (λ _. refl, λ _. refl)
denied_iff false = (λ e. ground (arith, e), λ e. ground (arith, e))

matches_filter-Agrees :
    (c : Codec) (p : Text) (filter : List (Text × Text))
    → (matches_filter c p filter ≡ true) ↔ (
        (decode_map c p ≡ none)
        ⊎ ((v : Json) × ((decode_map c p ≡ some v)
              × All (λ entry. Agrees (Json.get entry.0 (map_of v)) entry.1) filter)))
unfolding matches_filter
matches_filter-Agrees c p filter = elim (Option-cases (decode_map c p)) [
  | inl e ↦ (λ _. inl e, λ _. rw (matches_filter, e) refl)
  | inr (v, e) ↦
      let m = map_of v in
      let all =
        each_iff (λ entry. differs (Json.get entry.0 m) entry.1 ≡ false)
          (λ entry. Agrees (Json.get entry.0 m) entry.1) filter
          (λ entry. differs-Agrees (Json.get entry.0 m) entry.1) in
      let opened : matches_filter c p filter ≡ matches_fields m filter =
        rw (matches_filter, e) refl in
      (
        λ h. inr (v, (e, all.0 ((matches_fields_lem m filter).0 (sym opened ∙ h)))),
        λ h. elim h [
          | inl e' ↦ absurd (some_is_given (sym e ∙ e'))
          | inr (v', (e', h')) ↦
              let same : v' ≡ v = some-injective v' v (sym e' ∙ e) in
              opened
              ∙ (matches_fields_lem m filter).1 (
                  all.1 (
                    subst
                      (λ (x : Json).
                        All (λ entry. Agrees (Json.get entry.0 (map_of x)) entry.1) filter)
                      same h'))
        ],
      )
]

-- Whether properties are not skipped by a filter that is not empty.
properties-PassesBy :
    (c : Codec) (entry : Text × Text) (filter : List (Text × Text)) (o : Option Text) (d : Listed)
    → d.properties ≡ o
    → (skipped c (entry ∷ filter) d ≡ false) ↔ PassesBy c (entry ∷ filter) o
unfolding skipped
properties-PassesBy c entry filter none d e = (λ _. inl refl, λ _. rw (skipped, e) refl)
properties-PassesBy c entry filter (some p) d e =
    let negated = denied_iff (matches_filter c p (entry ∷ filter)) in
    let matched = matches_filter-Agrees c p (entry ∷ filter) in
    let opened : skipped c (entry ∷ filter) d ≡ not (matches_filter c p (entry ∷ filter)) =
      rw (skipped, e) refl in
    (
      λ h. inr (p, (refl, matched.0 (negated.0 (sym opened ∙ h)))),
      λ h. elim h [
        | inl e' ↦ absurd (some_is_given e')
        | inr (q, (e', h')) ↦
            let same : q ≡ p = sym (some-injective p q e') in
            opened
            ∙ negated.1 (
                matched.1 (
                  subst
                    (λ (x : Text).
                      (decode_map c x ≡ none)
                      ⊎ ((v : Json) × ((decode_map c x ≡ some v)
                            × All (λ en. Agrees (Json.get en.0 (map_of v)) en.1) (entry ∷ filter))))
                    same h'))
      ],
    )

-- A filter keeps just the descriptions that pass it.
pub skipped-Passes :
    (c : Codec) (filter : List (Text × Text)) (d : Listed)
    → (skipped c filter d ≡ false) ↔ Passes c filter d
unfolding skipped
skipped-Passes c [] d = (λ _. inl refl, λ _. refl)
skipped-Passes c (entry ∷ filter) d =
    let by = properties-PassesBy c entry filter d.properties d refl in
    (λ h. inr (by.0 h), λ h. elim h [ inl e ↦ absurd (cons_is_full e) | inr k ↦ by.1 k ])
