-- ===== src/Ecs/Endpoints/Laws.antt =====
-- What is published of a service's load balancers.
use formae_plugin_aws.Prelude.{
  ℕ, ◌≡◌, refl, ◌⊎◌, inl, inr, true, Option, none, some, List, [], ◌∷◌, Member, Io, Bool-cases,
  Option-cases, subst, All,
}
use formae_plugin_aws.Text.{Text, ◌===◌}
use formae_plugin_aws.Text.Equality.{eq_sound}
use formae_plugin_aws.Go.{GoError, Outcome, panicked, succeed}
use formae_plugin_aws.Maps.{Map, lookup, insert}
use formae_plugin_aws.Maps.Laws.{lookup-insert, insert-All}
use formae_plugin_aws.Ecs.Timeout.{LoadBalancer}
use formae_plugin_aws.Ecs.Elb.{TargetGroup, Balancer, Listener, ElbClient, Composition}
use formae_plugin_aws.Ecs.Endpoints.Retries.{is_transient}
use formae_plugin_aws.Ecs.Endpoints.Retries.Answers.{Answered, describe_retry_holds}
use formae_plugin_aws.Ecs.Endpoints.Entry.{compose_one_entry}
use formae_plugin_aws.Ecs.Endpoints.Entry.Laws.{Addressed, compose_one_entry-Addressed}
use formae_plugin_aws.Ecs.Endpoints.Collect.{
  unique_tg_arns, unique_alb_arns, index_tgs_by_arn, index_lbs_by_arn,
}
use formae_plugin_aws.Ecs.Endpoints.{
  compose_entries, stopped, worth_after, listeners_of, stop, finish, describe_balancers,
  describe_groups, compose_endpoints,
}

module _ (lbs : List LoadBalancer) (tgs : Map TargetGroup) (albs : Map Balancer)
    (listeners : Map (List Listener)) (key : Text) where
  -- The map has nothing at the key, or the address of one of the entries.
  abbrev FromEntry : Option Text → Type 0
  FromEntry o =
      (o ≡ none)
      ⊎ ((lb : LoadBalancer) × ((url : Text) × (Member lb lbs
              × ((o ≡ some url) × Addressed lb tgs albs listeners key url))))

compose_entries-FromEntry :
    (all lbs : List LoadBalancer) (tgs : Map TargetGroup) (albs : Map Balancer)
    (listeners : Map (List Listener)) (key : Text) (out : Map Text)
    → ((lb : LoadBalancer) → Member lb lbs → Member lb all)
    → FromEntry all tgs albs listeners key (lookup key out)
    → FromEntry all tgs albs listeners key (lookup key (compose_entries tgs albs listeners lbs out))
unfolding compose_entries
compose_entries-FromEntry all [] tgs albs listeners key out sub h = h
compose_entries-FromEntry all (lb ∷ lbs) tgs albs listeners key out sub h =
    compose_entries-FromEntry all lbs tgs albs listeners key _ (λ b m. sub b (inr m))
      (elim (Option-cases (compose_one_entry lb tgs albs listeners)) [
        | inl skipped ↦ rw skipped h
        | inr ((k, url), e) ↦
            rw (e, lookup-insert k key url out)
              (elim (Bool-cases (k === key)) [
                | inl same ↦ rw same (
                    inr (
                      lb,
                      (
                        url,
                        (
                          sub lb (inl refl),
                          (
                            refl,
                            subst (λ j. Addressed lb tgs albs listeners j url) (eq_sound k key same)
                                (compose_one_entry-Addressed lb tgs albs listeners k url e),
                          ),
                        ),
                      ),
                    ))
                | inr other ↦ rw other h
              ])
      ])

-- The error that the caller should wait for is one that is worth another try.
abbrev WorthTrying : Option GoError → Type 0
WorthTrying o = (o ≡ none) ⊎ ((e : GoError) × ((o ≡ some e) × (is_transient e ≡ true)))

worth_after-WorthTrying :
    (e : GoError) (worth : Option GoError) → WorthTrying worth → WorthTrying (worth_after e worth)
worth_after-WorthTrying e worth h = elim (Bool-cases (is_transient e)) [
  | inl p ↦ rw p (inr (e, (refl, p)))
  | inr p ↦ rw p h
]

-- The target groups, the load balancers and the listeners that the load balancing API answered with,
-- and the entry that has the address by them. Without the ARN of a load balancer none is asked for.
pub record Behind {ℓ} {W : Type ℓ} (elb : ElbClient W) (lbs : List LoadBalancer) (key url : Text)
    : Type ℓ where
  pub groups : List TargetGroup
  pub balancers : List Balancer
  pub listeners : Map (List Listener)
  pub entry : LoadBalancer
  pub groups_answered : Answered (elb.describe_target_groups (unique_tg_arns lbs)) groups
  pub balancers_answered :
      ((unique_alb_arns groups ≡ []) × (balancers ≡ []))
      ⊎ Answered (elb.describe_load_balancers (unique_alb_arns groups)) balancers
  pub listeners_answered : All (λ e. Answered (elb.describe_listeners e.0) e.1) listeners
  pub declared : Member entry lbs
  pub addressed :
      Addressed entry (index_tgs_by_arn groups) (index_lbs_by_arn balancers) listeners key url

-- Never an error: a panic, or endpoints of which each is the address of an entry by the answers of
-- the load balancing API, with an error only if that is worth another try.
abbrev pub Published {ℓ} :
    {W : Type ℓ} → ElbClient W → List LoadBalancer → Text → Outcome Composition → Type ℓ
Published elb lbs key o =
    (o ≡ panicked)
    ⊎ ((c : Composition) × ((o ≡ succeed c)
          × (WorthTrying c.transient_error
              × ((lookup key c.endpoints ≡ none)
                  ⊎ ((url : Text) × ((lookup key c.endpoints ≡ some url)
                        × Behind elb lbs key url))))))

module _ {ℓ} {W : Type ℓ} (pause : ℕ → Io W (Option GoError)) (elb : ElbClient W)
    (lbs : List LoadBalancer) (key : Text) where
  stop-Published : (e : GoError) (w : W) → Published elb lbs key (stop pause elb e w).0
  stop-Published e w =
      inr (
        stopped e,
        (refl, (worth_after-WorthTrying e none (inl refl), inl (unfold lookup in refl))),
      )

  module _ (groups : List TargetGroup)
      (told : Answered (elb.describe_target_groups (unique_tg_arns lbs)) groups)
      (balancers : List Balancer)
      (told_balancers : ((unique_alb_arns groups ≡ []) × (balancers ≡ []))
        ⊎ Answered (elb.describe_load_balancers (unique_alb_arns groups)) balancers) where
    from_entry :
        (listeners : Map (List Listener)) (o : Option Text)
        → All (λ e. Answered (elb.describe_listeners e.0) e.1) listeners
        → FromEntry lbs (index_tgs_by_arn groups) (index_lbs_by_arn balancers) listeners key o
        → (o ≡ none) ⊎ ((url : Text) × ((o ≡ some url) × Behind elb lbs key url))
    from_entry listeners o heard (inl e) = inl e
    from_entry listeners o heard (inr (lb, (url, (m, (e, addressed))))) = inr (
      url,
      (
        e,
        record {
          groups = groups;
          balancers = balancers;
          listeners = listeners;
          entry = lb;
          groups_answered = told;
          balancers_answered = told_balancers;
          listeners_answered = heard;
          declared = m;
          addressed = addressed;
        },
      ),
    )

    listeners_of-Published :
        (arns : List Text) (listeners : Map (List Listener)) (worth : Option GoError) (w : W)
        → All (λ e. Answered (elb.describe_listeners e.0) e.1) listeners
        → WorthTrying worth
        → Published elb lbs key
            (listeners_of pause elb arns listeners worth
              (finish pause elb lbs (index_tgs_by_arn groups) (index_lbs_by_arn balancers))
              w).0
    unfolding listeners_of
    listeners_of-Published [] listeners worth w heard h = inr (
      _,
      (
        refl,
        (
          h,
          from_entry listeners _ heard (
              compose_entries-FromEntry lbs lbs _ _ listeners key [] (λ b m. m)
                (inl (unfold lookup in refl))),
        ),
      ),
    )
    listeners_of-Published (arn ∷ arns) listeners worth w heard h =
        describe_retry_holds pause (elb.describe_listeners arn) (Published elb lbs key) _ _ w
          (inl refl)
          (λ e w'.
            listeners_of-Published arns listeners (worth_after e worth) w' heard
              (worth_after-WorthTrying e worth h))
          (λ found w' answered.
            listeners_of-Published arns (insert arn found listeners) worth w'
              (insert-All _ arn found listeners answered heard) h)

  describe_balancers-Published :
      (arns : List Text) (k : Map Balancer → Io W (Outcome Composition)) (w : W)
      → ((balancers : List Balancer) (w' : W)
          → ((arns ≡ []) × (balancers ≡ [])) ⊎ Answered (elb.describe_load_balancers arns) balancers
          → Published elb lbs key (k (index_lbs_by_arn balancers) w').0)
      → Published elb lbs key (describe_balancers pause elb arns k w).0
  unfolding describe_balancers
  describe_balancers-Published [] k w h = h [] w (inl (refl, refl))
  describe_balancers-Published (arn ∷ arns) k w h =
      describe_retry_holds pause (elb.describe_load_balancers (arn ∷ arns)) (Published elb lbs key)
        _ _ w (inl refl) stop-Published (λ found w' answered. h found w' (inr answered))

  describe_groups-Published :
      (arns : List Text) (w : W)
      → arns ≡ unique_tg_arns lbs
      → Published elb lbs key (describe_groups pause elb lbs arns w).0
  unfolding describe_groups
  describe_groups-Published [] w e = inr (_, (refl, (inl refl, inl (unfold lookup in refl))))
  describe_groups-Published (arn ∷ arns) w e =
      describe_retry_holds pause (elb.describe_target_groups (arn ∷ arns)) (Published elb lbs key) _
        _ w (inl refl) stop-Published
        (λ tgs w' answered.
          describe_balancers-Published (unique_alb_arns tgs) _ w' (λ balancers w'' told.
            listeners_of-Published tgs
              (subst (λ x. Answered (elb.describe_target_groups x) tgs) e answered) balancers told
              (unique_alb_arns tgs) [] none w'' tt (inl refl)))

-- The composition of endpoints panics or succeeds, never with an error. An error that it reports is
-- one that is worth another try. Each address that it publishes, at any key, is that of an entry of
-- the service by values that calls of the load balancing API gave without an error: the target
-- groups of all entries, their load balancers, and, for each load balancer whose listeners are
-- used, the listeners at its own ARN. By these values the address is that of the only application
-- load balancer of the entry's target group and of the only listener there that forwards to the
-- group by HTTP or HTTPS.
pub compose_endpoints-Published {ℓ} :
    {W : Type ℓ} (pause : ℕ → Io W (Option GoError)) (elb : ElbClient W) (lbs : List LoadBalancer)
    (key : Text) (w : W)
    → Published elb lbs key (compose_endpoints pause elb lbs w).0
unfolding compose_endpoints
compose_endpoints-Published pause elb lbs key w =
    describe_groups-Published pause elb lbs key (unique_tg_arns lbs) w refl
