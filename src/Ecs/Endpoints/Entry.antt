-- ===== src/Ecs/Endpoints/Entry.antt =====
-- composeOneEntry and listenerForwardsTo of endpoints.go.
pub mod Laws
use formae_plugin_aws.Prelude.Int.{ℤ, pos}
use formae_plugin_aws.Prelude.{
  ℕ, zero, suc, Bool, true, false, not, ◌&&◌, ◌||◌, Option, none, some, List, [], ◌∷◌, ◌++◌,
  if◌then◌else◌,
}
use formae_plugin_aws.Text.{Text, codes, ◌===◌, is_empty}
use formae_plugin_aws.Text.Decimal.{format_int}
use formae_plugin_aws.Maps.{Map, lookup}
use formae_plugin_aws.Properties.{or_empty}
use formae_plugin_aws.Ecs.Timeout.{LoadBalancer}
use formae_plugin_aws.Ecs.Elb.{
  TargetGroup, Balancer, Action, Protocol, http, https, other_protocol, Listener,
}

unfoldable any_is : Text → List (Option Text) → Bool
any_is arn [] = false
any_is arn (o ∷ os) = or_empty o === arn || any_is arn os

abbrev config_names : Text → Option (List (Option Text)) → Bool
config_names arn none = false
config_names arn (some arns) = any_is arn arns

abbrev forwards_to : Action → Text → Bool
forwards_to a arn =
    a.is_forward && (or_empty a.target_group_arn === arn || config_names arn a.forward_config)

unfoldable pub any_forwards : List Action → Text → Bool
unfolding any_is
any_forwards [] arn = false
any_forwards (a ∷ rest) arn = forwards_to a arn || any_forwards rest arn

abbrev pub listener_forwards_to : Listener → Text → Bool
listener_forwards_to lst arn = any_forwards lst.default_actions arn

abbrev pub is_http : Protocol → Bool
is_http other_protocol = false
is_http _ = true

-- The members that pass a test, in their order.
unfoldable pub select : {A : Type 0} → (A → Bool) → List A → List A
select test [] = []
select test (a ∷ more) = let rest = select test more in if test a then a ∷ rest else rest

abbrev pub is_application_balancer : Option Balancer → Bool
is_application_balancer none = false
is_application_balancer (some lb) = lb.is_application

-- The load balancers of the list that are known and are application load balancers.
abbrev pub application_arns : Map Balancer → List Text → List Text
application_arns albs = select (λ a. is_application_balancer (lookup a albs))

-- The listeners that forward to the target group by HTTP or HTTPS.
abbrev pub matching : Text → List Listener → List Listener
matching arn = select (λ l. listener_forwards_to l arn && is_http l.protocol)

-- The only member.
abbrev pub only {ℓ} : {A : Type ℓ} → List A → Option A
only (a ∷ []) = some a
only _ = none

abbrev pub or_zero : Option ℤ → ℤ
or_zero none = pos 0
or_zero (some n) = n

abbrev pub is_zero : ℤ → Bool
is_zero (pos zero) = true
is_zero _ = false

abbrev scheme_of : Protocol → Text
scheme_of https = codes "https"
scheme_of _ = codes "http"

abbrev dns_of : Option Balancer → Text
dns_of none = []
dns_of (some lb) = or_empty lb.dns_name

unfoldable pub endpoint_key : Text → ℤ → Text
endpoint_key name port = name ++ (codes ":" ++ format_int port)

unfoldable pub endpoint_url : Option Balancer → Listener → Text
endpoint_url alb lst =
    scheme_of lst.protocol
    ++ (codes "://" ++ (dns_of alb ++ (codes ":" ++ format_int (or_zero lst.port))))

abbrev pub has_required : LoadBalancer → Bool
has_required lb =
    not (is_empty (or_empty lb.target_group_arn))
    && (not (is_empty (or_empty lb.container_name)) && not (is_zero (or_zero lb.container_port)))

-- A missing list is empty.
abbrev pub or_none {ℓ} : {A : Type ℓ} → Option (List A) → List A
or_none none = []
or_none (some xs) = xs

-- The key and the address of an entry; `none` is an entry that is skipped.
unfoldable pub compose_one_entry :
    LoadBalancer → Map TargetGroup → Map Balancer → Map (List Listener) → Option (Text × Text)
compose_one_entry lb tgs albs listeners =
    let arn = or_empty lb.target_group_arn in
    if not (has_required lb) then none else elim (lookup arn tgs) [
      | none ↦ none
      | some tg ↦ elim (only (application_arns albs tg.load_balancer_arns)) [
        | none ↦ none
        | some alb ↦ elim (only (matching arn (or_none (lookup alb listeners)))) [
          | none ↦ none
          | some lst ↦ some (
            endpoint_key (or_empty lb.container_name) (or_zero lb.container_port),
            endpoint_url (lookup alb albs) lst,
          )
        ]
      ]
    ]
