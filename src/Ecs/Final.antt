-- ===== src/Ecs/Final.antt =====
-- The end of phase B, from phase.go: the health of the target groups, and the last read.
use formae_plugin_aws.Prelude.Int.{ℤ, pos, ltb_ℤ}
use formae_plugin_aws.Prelude.{
  ℕ, zero, suc, Bool, true, false, ◌&&◌, ◌||◌, not, Option, none, some, List, [], ◌∷◌, ◌++◌,
  if◌then◌else◌, length, Io, pure,
}
use formae_plugin_aws.Text.{Text, codes, is_empty, cut_last, join}
use formae_plugin_aws.Text.Decimal.{format_int}
use formae_plugin_aws.Go.{GoError, Outcome, panicked, succeed, fail, after, deref, call}
use formae_plugin_aws.Sdk.{
  ErrorCode, is_no_code, no_code, Operation, success, ProgressResult, StatusRequest, ReadRequest,
  ReadResult,
}
use formae_plugin_aws.Ccx.Write.{to_string}
use formae_plugin_aws.Ecs.Names.{parse_cluster_and_service, build_canonical_native_id}
use formae_plugin_aws.Ecs.Classify.{terminal_failure, classify_read_result_for_final}
use formae_plugin_aws.Ecs.Timeout.{
  LoadBalancer, EcsService, Service, in_progress_or_timeout, in_progress_or_final_read_timeout,
  classify_for_status,
}
use formae_plugin_aws.Ecs.Elb.{ElbClient, Composition}
use formae_plugin_aws.Ecs.Endpoints.{compose_endpoints}
use formae_plugin_aws.Ecs.PhaseA.{handle}
use formae_plugin_aws.Ecs.Reading.{service_read}

unfoldable has_target_group : List LoadBalancer → Bool
has_target_group [] = false
has_target_group (lb ∷ lbs) = not (is_empty (to_string lb.target_group_arn)) || has_target_group lbs

unfoldable pub needs_target_health : EcsService → Bool
unfolding has_target_group
needs_target_health svc = ltb_ℤ (pos 0) svc.desired_count && has_target_group svc.load_balancers

abbrev count_healthy : List Bool → ℕ
count_healthy [] = zero
count_healthy (true ∷ ts) = suc (count_healthy ts)
count_healthy (false ∷ ts) = count_healthy ts

-- Whether all groups are healthy so far, and a message for each.
abbrev pub Health : Type 0
Health = Bool × List Text

abbrev with_group : Text → List Bool → Health → Health
with_group arn targets rest = (
  not (is_zero (count_healthy targets)) && rest.0,
  (arn
        ++ (codes " "
            ++ (format_int (pos (count_healthy targets))
                ++ (codes "/" ++ format_int (pos (length targets))))))
      ∷ rest.1,
)
  where
    is_zero : ℕ → Bool
    is_zero zero = true
    is_zero (suc n) = false

module _ {ℓ} {W : Type ℓ} (elb : ElbClient W) where
  -- The groups in their order; the first error ends the walk.
  unfoldable pub check_all_tgs_healthy : List LoadBalancer → Io W (Outcome Health)
  check_all_tgs_healthy [] w = (succeed (true, []), w)
  check_all_tgs_healthy (lb ∷ lbs) w =
      let arn = to_string lb.target_group_arn in
      let asked =
        call (elb.describe_target_health arn) fail
          (λ targets.
            call (check_all_tgs_healthy lbs) fail
              (λ rest w'. (succeed (with_group arn targets rest), w')))
          w in
      let rest = check_all_tgs_healthy lbs w in if is_empty arn then rest else asked

unfoldable pub derive_cluster_short_name : Text → EcsService → Text
derive_cluster_short_name native_id svc = elim (parse_cluster_and_service native_id) [
  | some names ↦ names.cluster
  | none ↦ elim (cut_last b'/' (to_string svc.cluster_arn)) [ none ↦ [] | some (_, name) ↦ name ]
]

abbrev final_message : Option ReadResult → Option GoError → (ErrorCode → Text) → Text
final_message rr (some e) code_text = e.message
final_message none none code_text = codes "nil ReadResult"
final_message (some rr) none code_text =
    if is_no_code rr.error_code then codes "empty Properties" else code_text rr.error_code

abbrev properties_of : Option ReadResult → Option Text
properties_of none = none
properties_of (some rr) = some rr.properties

module _ {ℓ} {W : Type ℓ} (s : Service W) where
  -- A result that is given back at once.
  abbrev pub give : Io W ProgressResult → Io W (Outcome ProgressResult)
  give m w = (succeed (m w).0, (m w).1)

  abbrev pub final_result :
      Operation
      → StatusRequest
      → ℤ
      → Text
      → Option ReadResult
      → Option GoError
      → Io W ProgressResult
  final_result op request start canonical rr err =
      let (code, again, good) = classify_read_result_for_final rr err in
      let message = final_message rr err s.code_text in
      if good
      then pure (record {
        operation = op;
        operation_status = success;
        request_id = [];
        native_id = canonical;
        status_message = [];
        error_code = no_code;
        resource_properties = properties_of rr;
      })
      else if again
      then in_progress_or_final_read_timeout s op request start
          (codes "post-stability Read transient: " ++ message)
      else pure (
          terminal_failure op request.native_id [] code
            (codes "post-stability Read failed: " ++ message))

  unfoldable pub final_read :
      StatusRequest → Operation → ℤ → EcsService → Io W (Outcome ProgressResult)
  final_read request op start svc w =
      let canonical =
        build_canonical_native_id (to_string svc.service_arn)
          (derive_cluster_short_name request.native_id svc) in
      let read_request : ReadRequest = record {
        resource_type = request.resource_type;
        native_id = canonical;
        target_config = request.target_config;
      } in
      let answer = service_read s read_request w in
      after answer.0 (λ rr err. give (final_result op request start canonical rr err)) answer.1

  unfoldable pub after_endpoints :
      StatusRequest → Operation → ℤ → EcsService → Composition → Io W (Outcome ProgressResult)
  after_endpoints request op start svc composed w = elim composed.transient_error [
    | some e ↦
        give
          (in_progress_or_timeout s op request start
            (codes "deployment stable; waiting for endpoint composition: " ++ e.message))
          w
    | none ↦ final_read request op start svc w
  ]

  -- With target groups, their health and the endpoints come first.
  unfoldable pub check_endpoints :
      StatusRequest → Operation → ℤ → EcsService → ElbClient W → Io W (Outcome ProgressResult)
  check_endpoints request op start svc elb w =
      let composed = compose_endpoints s.pause elb svc.load_balancers w in
      after composed.0 (λ out err. deref out (after_endpoints request op start svc)) composed.1

  unfoldable pub after_health :
      StatusRequest
      → Operation
      → ℤ
      → EcsService
      → ElbClient W
      → Health
      → Io W (Outcome ProgressResult)
  after_health request op start svc elb (healthy, messages) w =
      if healthy
      then check_endpoints request op start svc elb w
      else give
          (in_progress_or_timeout s op request start (
            codes "deployment stable; waiting for healthy targets: " ++ join (codes ", ") messages))
          w

  unfoldable pub check_health :
      StatusRequest → Operation → ℤ → EcsService → ElbClient W → Io W (Outcome ProgressResult)
  check_health request op start svc elb w =
      let asked = check_all_tgs_healthy elb svc.load_balancers w in
      after asked.0
        (λ health err.
          handle err
            (λ e. give (classify_for_status s e op request start (codes "DescribeTargetHealth")))
            (deref health (after_health request op start svc elb)))
        asked.1

  -- Calling a factory that is nil panics.
  unfoldable pub elb_checks :
      Option (Io W (Outcome (ElbClient W)))
      → StatusRequest
      → Operation
      → ℤ
      → EcsService
      → Io W (Outcome ProgressResult)
  elb_checks none request op start svc w = (panicked, w)
  elb_checks (some factory) request op start svc w =
      after (factory w).0
        (λ elb err.
          handle err
            (λ e. give (classify_for_status s e op request start (codes "build ELBv2 client")))
            (deref elb (check_health request op start svc)))
        (factory w).1

  unfoldable pub final_success :
      StatusRequest → Operation → ℤ → EcsService → Io W (Outcome ProgressResult)
  final_success request op start svc w =
      if needs_target_health svc
      then elb_checks s.elb_client request op start svc w
      else final_read request op start svc w
