-- ===== src/Ecs/Endpoints/Collect.antt =====
-- uniqueTGArns, uniqueALBArns, indexTGsByArn and indexLBsByArn of endpoints.go.
use formae_plugin_aws.Prelude.{
  Bool, true, false, not, ◌&&◌, ◌||◌, List, [], ◌∷◌, ◌++◌, if◌then◌else◌, ltb, ◌==◌,
}
use formae_plugin_aws.Text.{Text, is_empty}
use formae_plugin_aws.Maps.{Map, insert}
use formae_plugin_aws.Properties.{or_empty}
use formae_plugin_aws.Ecs.Timeout.{LoadBalancer}
use formae_plugin_aws.Ecs.Elb.{TargetGroup, Balancer}
use formae_plugin_aws.Ecs.Endpoints.Retries.{one_of}

-- s <= t
unfoldable text_leb : Text → Text → Bool
text_leb [] t = true
text_leb (c ∷ s) [] = false
text_leb (c ∷ s) (d ∷ t) = ltb c d || (c == d && text_leb s t)

unfoldable insert_sorted : Text → List Text → List Text
unfolding text_leb
insert_sorted s [] = s ∷ []
insert_sorted s (t ∷ ts) =
    let rest = insert_sorted s ts in if text_leb s t then s ∷ t ∷ ts else t ∷ rest

-- sort.Strings
unfoldable pub sort_strings : List Text → List Text
unfolding insert_sorted
sort_strings [] = []
sort_strings (s ∷ ss) = insert_sorted s (sort_strings ss)

abbrev pub keep : Bool → Text → List Text → List Text
keep true s ss = s ∷ ss
keep false s ss = ss

-- The first of each text; `seen` are those before.
unfoldable unique : List Text → List Text → List Text
unfolding one_of
unique seen [] = []
unique seen (s ∷ ss) = keep (not (one_of seen s)) s (unique (s ∷ seen) ss)

unfoldable pub tg_arns : List LoadBalancer → List Text
tg_arns [] = []
tg_arns (lb ∷ lbs) =
    let rest = tg_arns lbs in
    let arn = or_empty lb.target_group_arn in if is_empty arn then rest else arn ∷ rest

unfoldable pub unique_tg_arns : List LoadBalancer → List Text
unfolding sort_strings unique
unique_tg_arns lbs = sort_strings (unique [] (tg_arns lbs))

unfoldable pub alb_arns : List TargetGroup → List Text
alb_arns [] = []
alb_arns (tg ∷ tgs) = tg.load_balancer_arns ++ alb_arns tgs

unfoldable pub unique_alb_arns : List TargetGroup → List Text
unfolding sort_strings unique
unique_alb_arns tgs = sort_strings (unique [] (alb_arns tgs))

abbrev index_from {ℓ} : {A : Type ℓ} → (A → Text) → List A → Map A → Map A
index_from key [] m = m
index_from key (a ∷ rest) m = index_from key rest (insert (key a) a m)

abbrev pub index_tgs_by_arn : List TargetGroup → Map TargetGroup
index_tgs_by_arn tgs = index_from (λ tg. or_empty tg.target_group_arn) tgs []

abbrev pub index_lbs_by_arn : List Balancer → Map Balancer
index_lbs_by_arn lbs = index_from (λ lb. or_empty lb.load_balancer_arn) lbs []
