-- ===== src/Ecs/Endpoints/Entry/Laws.antt =====
-- What an address of an entry says of the load balancers.
use formae_plugin_aws.Prelude.{
  ◌≡◌, refl, ◌⊎◌, inl, inr, arith, Bool, true, false, ◌&&◌, some, List, [], ◌∷◌, Member, All,
  if◌then◌else◌, Bool-cases, Option-cases, subst, sym, ap,
}
use mathlib.Core.Option.{some-injective}
use formae_plugin_aws.Text.{Text}
use formae_plugin_aws.Maps.{Map, lookup}
use formae_plugin_aws.Properties.{or_empty}
use formae_plugin_aws.Ecs.Timeout.{LoadBalancer}
use formae_plugin_aws.Ecs.Elb.{TargetGroup, Balancer, Listener}
use formae_plugin_aws.Ecs.Endpoints.Entry.{
  listener_forwards_to, is_http, select, is_application_balancer, application_arns, matching, only,
  or_zero, endpoint_key, endpoint_url, has_required, or_none, compose_one_entry,
}

only_sound {ℓ} : {A : Type ℓ} (xs : List A) (a : A) → only xs ≡ some a → xs ≡ a ∷ []
only_sound [] a h = cc
only_sound (x ∷ []) a h = ap (λ y. y ∷ []) (some-injective x a h)
only_sound (x ∷ y ∷ xs) a h = cc

select_sound :
    {A : Type 0} (test : A → Bool) (xs : List A) (a : A)
    → Member a (select test xs)
    → Member a xs × (test a ≡ true)
unfolding select
select_sound test [] a m = absurd m
select_sound test (x ∷ xs) a m = elim (Bool-cases (test x)) [
  | inl p ↦
      elim (subst (Member a) (ap (λ b. if b then x ∷ select test xs else select test xs) p) m) [
        | inl e ↦ (inl e, subst (λ y. test y ≡ true) e p)
        | inr later ↦ let (n, q) = select_sound test xs a later in (inr n, q)
      ]
  | inr p ↦
      let (n, q) =
        select_sound test xs a
          (subst (Member a) (ap (λ b. if b then x ∷ select test xs else select test xs) p) m) in
      (inr n, q)
]

select_complete :
    {A : Type 0} (test : A → Bool) (xs : List A) (a : A)
    → Member a xs
    → test a ≡ true
    → Member a (select test xs)
unfolding select
select_complete test [] a m h = absurd m
select_complete test (x ∷ xs) a m h = elim (Bool-cases (test x)) [
  | inl p ↦
      rw (select, p)
        (elim m [ inl e ↦ inl e | inr later ↦ inr (select_complete test xs a later h) ])
  | inr p ↦
      rw (select, p)
        (elim m [
          | inl e ↦ absurd (ground (arith, subst (λ y. test y ≡ false) e p, h))
          | inr later ↦ select_complete test xs a later h
        ])
]

gathered : {A : Type 0} {P : A → Type 0} (xs : List A) → ((b : A) → Member b xs → P b) → All P xs
gathered [] h = tt
gathered (x ∷ xs) h = (h x (inl refl), gathered xs (λ b m. h b (inr m)))

-- The only member that passes a test, and that it is the only one.
only-select :
    {A : Type 0} (test : A → Bool) (xs : List A) (a : A)
    → only (select test xs) ≡ some a
    → (Member a xs × (test a ≡ true)) × All (λ b. (test b ≡ false) ⊎ (a ≡ b)) xs
only-select test xs a h =
    let alone = only_sound (select test xs) a h in
    (
      select_sound test xs a (subst (Member a) (sym alone) (inl refl)),
      gathered xs (λ b m. elim (Bool-cases (test b)) [
        | inr fails ↦ inl fails
        | inl p ↦ elim (subst (Member b) alone (select_complete test xs b m p)) [
          | inl e ↦ inr e
          | inr none_left ↦ absurd none_left
        ]
      ]),
    )

-- The load balancer and the listener behind an address: the entry names its target group, a container
-- and a port; of the load balancers of the group this one is the only application load balancer,
-- and of its listeners this one is the only one that forwards to the group by HTTP or HTTPS.
pub record Addressed (lb : LoadBalancer) (tgs : Map TargetGroup) (albs : Map Balancer)
    (listeners : Map (List Listener)) (key url : Text) : Type 0 where
  pub group : TargetGroup
  pub alb : Text
  pub listener : Listener
  pub required : has_required lb ≡ true
  pub grouped : lookup (or_empty lb.target_group_arn) tgs ≡ some group
  pub fronts :
      Member alb group.load_balancer_arns × (is_application_balancer (lookup alb albs) ≡ true)
  pub only_alb :
      All
        (λ other. (is_application_balancer (lookup other albs) ≡ false) ⊎ (alb ≡ other))
        group.load_balancer_arns
  pub listens :
      Member listener (or_none (lookup alb listeners))
      × (listener_forwards_to listener (or_empty lb.target_group_arn) && is_http listener.protocol
          ≡ true)
  pub only_listener :
      All
        (λ other.
          (listener_forwards_to other (or_empty lb.target_group_arn) && is_http other.protocol
            ≡ false)
          ⊎ (listener ≡ other))
        (or_none (lookup alb listeners))
  pub keyed : key ≡ endpoint_key (or_empty lb.container_name) (or_zero lb.container_port)
  pub located : url ≡ endpoint_url (lookup alb albs) listener

-- An entry that has an address has one load balancer and one listener behind it, and no other.
pub compose_one_entry-Addressed :
    (lb : LoadBalancer) (tgs : Map TargetGroup) (albs : Map Balancer)
    (listeners : Map (List Listener)) (key url : Text)
    → compose_one_entry lb tgs albs listeners ≡ some (key, url)
    → Addressed lb tgs albs listeners key url
unfolding compose_one_entry
compose_one_entry-Addressed lb tgs albs listeners key url h =
    let arn = or_empty lb.target_group_arn in
    elim (Bool-cases (has_required lb)) [
      | inr lacking ↦ absurd (ground (arith, rw (compose_one_entry, lacking) at h))
      | inl required ↦ elim (Option-cases (lookup arn tgs)) [
        | inl unknown ↦ absurd (ground (arith, rw (compose_one_entry, required, unknown) at h))
        | inr (tg, known) ↦
            elim (Option-cases (only (application_arns albs tg.load_balancer_arns))) [
              | inl several ↦
                  absurd (ground (arith, rw (compose_one_entry, required, known, several) at h))
              | inr (alb, one) ↦
                  elim (Option-cases (only (matching arn (or_none (lookup alb listeners))))) [
                    | inl ambiguous ↦ absurd (
                        ground
                          (arith, rw (compose_one_entry, required, known, one, ambiguous) at h))
                    | inr (lst, single) ↦
                        let e =
                          some-injective _ _
                            (rw (compose_one_entry, required, known, one, single) at h) in
                        addressed tg alb lst required known one single (ap (λ p. p.0) e)
                          (ap (λ p. p.1) e)
                  ]
            ]
      ]
    ]
  where
    addressed :
        (tg : TargetGroup) (alb : Text) (lst : Listener)
        → has_required lb ≡ true
        → lookup (or_empty lb.target_group_arn) tgs ≡ some tg
        → only (application_arns albs tg.load_balancer_arns) ≡ some alb
        → only (matching (or_empty lb.target_group_arn) (or_none (lookup alb listeners))) ≡ some lst
        → endpoint_key (or_empty lb.container_name) (or_zero lb.container_port) ≡ key
        → endpoint_url (lookup alb albs) lst ≡ url
        → Addressed lb tgs albs listeners key url
    addressed tg alb lst required known one single k u =
        let (fronts, only_alb) = only-select _ tg.load_balancer_arns alb one in
        let (listens, only_listener) = only-select _ (or_none (lookup alb listeners)) lst single in
        record {
          group = tg;
          alb = alb;
          listener = lst;
          required = required;
          grouped = known;
          fronts = fronts;
          only_alb = only_alb;
          listens = listens;
          only_listener = only_listener;
          keyed = sym k;
          located = sym u;
        }
