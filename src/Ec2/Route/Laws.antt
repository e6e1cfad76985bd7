-- ===== src/Ec2/Route/Laws.antt =====
-- The target of a route, and the deletion of a route that cannot be described.
use formae_plugin_aws.Prelude.{
  ◌≡◌, refl, sym, ap, ◌∙◌, ◌⊎◌, inl, inr, false, Option, none, some, List, [], ◌∷◌, Member, arith,
  subst,
}
use mathlib.Core.Sum.{inl-injective}
use formae_plugin_aws.Text.{Text, codes, is_empty}
use formae_plugin_aws.Text.Split.{Lacks}
use formae_plugin_aws.Go.{GoError, returned, succeed, fail}
use formae_plugin_aws.Go.Laws.{call_ok, call_error}
use formae_plugin_aws.Sdk.{delete, done_result, DeleteRequest, ReadRequest}
use formae_plugin_aws.Json.{Fields}
use formae_plugin_aws.Properties.{text_at, unless_bad, get_string_property}
use formae_plugin_aws.CodeBuild.Ids.{split_n}
use formae_plugin_aws.CodeBuild.Ids.Laws.{split_n-append}
use formae_plugin_aws.Ec2.Route.{
  TableRoute, RouteClient, Route, target_keys, choose, pick_target, id_of_target, route_id,
  build_native_id, parts_or_error, parse_route_id, no_route, describe_route, route_read,
  delete_found, route_delete,
}

module _ (props : Fields) where
  -- No key has a value.
  abbrev Unset : List Text → Type 0
  Unset keys = (j : Text) → Member j keys → text_at j props ≡ []

  -- The target is a key with its value, and it is the only one with a value.
  abbrev OnlyTarget : List Text → Text × Text → Type 0
  OnlyTarget keys (key, value) =
      Member key keys
      × ((text_at key props ≡ value)
          × ((is_empty value ≡ false)
              × ((j : Text) → Member j keys → (key ≡ j) ⊎ (text_at j props ≡ []))))

  choose-none :
      (key s : Text) (keys : List Text) (t : Text × Text)
      → choose none key s (λ now. pick_target props keys now) ≡ inl t
      → ((s ≡ []) × (pick_target props keys none ≡ inl t))
        ⊎ ((is_empty s ≡ false) × (pick_target props keys (some (key, s)) ≡ inl t))
  choose-none key [] keys t e = inl (refl, e)
  choose-none key (c ∷ s) keys t e = inr (refl, e)

  choose-some :
      (key s : Text) (keys : List Text) (c t : Text × Text)
      → choose (some c) key s (λ now. pick_target props keys now) ≡ inl t
      → (s ≡ []) × (pick_target props keys (some c) ≡ inl t)
  choose-some key [] keys c t e = (refl, e)
  choose-some key (x ∷ s) keys (other, v) t e = ground (arith, e)

  pick_target-some :
      (keys : List Text) (c t : Text × Text)
      → pick_target props keys (some c) ≡ inl t
      → (c ≡ t) × Unset keys
  unfolding pick_target
  pick_target-some [] c t e = (ground (arith, e), λ j m. absurd m)
  pick_target-some (key ∷ keys) c t e =
      let (empty, later) = choose-some key (text_at key props) keys c t e in
      let (same, unset) = pick_target-some keys c t later in
      (
        same,
        λ j m. elim m [ inl p ↦ ap (λ k. text_at k props) (sym p) ∙ empty | inr m' ↦ unset j m' ],
      )

  pick_target-Only :
      (keys : List Text) (t : Text × Text) → pick_target props keys none ≡ inl t → OnlyTarget keys t
  unfolding pick_target
  pick_target-Only [] t e = ground (arith, e)
  pick_target-Only (key ∷ keys) t e = elim (choose-none key (text_at key props) keys t e) [
    | inl (empty, later) ↦
        let (m, (v, (n, others))) = pick_target-Only keys t later in
        (
          inr m,
          (
            v,
            (
              n,
              λ j k. elim k [
                | inl p ↦ inr (ap (λ x. text_at x props) (sym p) ∙ empty)
                | inr k' ↦ others j k'
              ],
            ),
          ),
        )
    | inr (given, later) ↦
        let (same, unset) = pick_target-some keys (key, text_at key props) t later in
        subst (OnlyTarget (key ∷ keys)) same
          (inl refl, (refl, (given, λ j k. elim k [ inl p ↦ inl p | inr k' ↦ inr (unset j k') ])))
  ]

-- What a native id of a route that has a table, a destination and a target comes from.
abbrev pub Named : Fields → Text → Type 0
Named props id =
    (table : Text) × ((cidr : Text) × ((t : Text × Text) × ((get_string_property props
              (codes "RouteTableId")
            ≡ inl table)
          × ((get_string_property props (codes "DestinationCidrBlock") ≡ inl cidr)
              × ((id ≡ route_id table cidr t) × OnlyTarget props target_keys t)))))

id_of_target-parts :
    (a b : Text ⊎ GoError) (o : (Text × Text) ⊎ GoError) (id : Text)
    → id_of_target a b o ≡ inl id
    → (table : Text) × ((cidr : Text) × ((t : Text × Text) × ((a ≡ inl table)
            × ((b ≡ inl cidr) × ((o ≡ inl t) × (id ≡ route_id table cidr t))))))
id_of_target-parts (inr x) b o id e = ground (arith, e)
id_of_target-parts (inl table) (inr x) o id e = ground (arith, e)
id_of_target-parts (inl table) (inl cidr) (inr x) id e = ground (arith, e)
id_of_target-parts (inl table) (inl cidr) (inl t) id e =
    (table, (cidr, (t, (refl, (refl, (refl, sym (inl-injective (route_id table cidr t) id e)))))))

-- Properties that give a native id have a table, a destination, and just one of the seven targets
-- with a value; the native id is made of these three.
pub build_native_id-Named :
    (props : Fields) (id : Text) → build_native_id props ≡ inl id → Named props id
unfolding build_native_id
build_native_id-Named props id e =
    let (table, (cidr, (t, (a, (b, (o, p)))))) =
      id_of_target-parts (get_string_property props (codes "RouteTableId"))
        (get_string_property props (codes "DestinationCidrBlock"))
        (pick_target props target_keys none) id e in
    (table, (cidr, (t, (a, (b, (p, pick_target-Only props target_keys t o))))))

-- The native id that a route is given names its table and its destination again, where neither has
-- a bar, whatever its target is.
parse_route_id-route_id :
    (table cidr : Text) (t : Text × Text)
    → Lacks b'|' table
    → Lacks b'|' cidr
    → parse_route_id (route_id table cidr t) ≡ inl (table, cidr)
unfolding parse_route_id split_n
parse_route_id-route_id table cidr t h h' =
    ap (parts_or_error (route_id table cidr t))
      (split_n-append b'|' 1 table _ h ∙ ap (λ ps. table ∷ ps) (split_n-append b'|' 0 cidr _ h'))

-- A delete of a route whose table cannot be described, whatever the error is, is a success, and
-- the world is as the description leaves it: no deletion is sent.
pub route_delete-Undescribed {ℓ} :
    {W : Type ℓ} (r : Route W) (client : RouteClient W) (request : DeleteRequest)
    (table cidr : Text) (out : Option (List (List TableRoute))) (e : GoError) (w w₁ w₂ w₃ : W)
    → r.route_client w ≡ (succeed client, w₁)
    → r.route_client w₁ ≡ (succeed client, w₂)
    → parse_route_id request.native_id ≡ inl (table, cidr)
    → client.describe_tables table w₂ ≡ (returned out (some e), w₃)
    → route_delete r request w ≡ (succeed (done_result delete request.native_id none), w₃)
unfolding route_delete route_read
route_delete-Undescribed r client request table cidr out e w w₁ w₂ w₃ built again parsed failed =
    let before : ReadRequest = record {
      resource_type = [];
      native_id = request.native_id;
      target_config = none;
    } in
    let read : route_read r before w₁ ≡ (succeed no_route, w₃) =
      call_ok r.route_client _ _ w₁ w₂ client again
      ∙ (ap (λ o. unless_bad o fail (describe_route r client) w₂) parsed
          ∙ call_error (client.describe_tables table) _ _ w₂ w₃ out e failed) in
    call_ok r.route_client _ _ w w₁ client built
    ∙ call_ok (route_read r before) _ (delete_found r request client) w₁ w₃ no_route read
