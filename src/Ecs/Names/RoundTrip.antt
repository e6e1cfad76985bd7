-- ===== src/Ecs/Names/RoundTrip.antt =====
-- What is encoded in a request id or a native id is read back.
use formae_plugin_aws.Prelude.Int.{ℤ}
use formae_plugin_aws.Prelude.{
  ◌≡◌, ◌≢◌, refl, none, some, [], ◌∷◌, ◌++◌, arith, ◌⊎◌, inl, inr, Option-cases, ◌∙◌,
}
use formae_plugin_aws.Text.{Text, codes, ◌===◌, strip_prefix, cut_last}
use formae_plugin_aws.Text.Equality.{strip_prefix-append, strip_prefix_sound}
use formae_plugin_aws.Text.Split.{Lacks, split_n3-join}
use formae_plugin_aws.Text.LastIndex.{cut_last-append}
use formae_plugin_aws.Text.Decimal.{format_int, parse_int-format_int, format_int-no_slash, IsInt64}
use formae_plugin_aws.Sdk.{Operation, create, update}
use formae_plugin_aws.Ecs.Names.{
  phase_b_prefix, op_seg_create, op_seg_update, segment_operation, parse_composite,
  compose_request_id, nonempty_names, canonical_names, parse_cluster_and_service, pending_native_id,
  build_canonical_native_id,
}

abbrev pub segment_of : Operation → Text
segment_of update = op_seg_update
segment_of _ = op_seg_create

parse_composite_of_segment :
    (seg : Text) (op : Operation) (start : ℤ) (token : Text)
    → segment_operation seg ≡ some op
    → Lacks b'/' seg
    → IsInt64 start
    → parse_composite (compose_request_id seg start token)
      ≡ some (record { op = op; unix_start = start; ccapi_token = token })
unfolding parse_composite compose_request_id
parse_composite_of_segment seg op start token known plain fits =
    let rest : Text = seg ++ b'/' ∷ (format_int start ++ b'/' ∷ token) in
    rw (parse_composite, strip_prefix-append phase_b_prefix rest)
      (rw (split_n3-join b'/' seg (format_int start) token plain (format_int-no_slash start))
        (rw (known, parse_int-format_int start fits)))

-- The request id that a create or an update gives out is parsed back into the operation, the start
-- and the token, whatever the token, if the start is an int64.
pub parse_composite-compose_request_id :
    (op : Operation) (start : ℤ) (token : Text)
    → (op ≡ create) ⊎ (op ≡ update)
    → IsInt64 start
    → parse_composite (compose_request_id (segment_of op) start token)
      ≡ some (record { op = op; unix_start = start; ccapi_token = token })
parse_composite-compose_request_id op start token (inl e) fits = rw e (
    parse_composite_of_segment op_seg_create create start token
      (unfold segment_operation ◌===◌ in refl) (omega arith) fits)
parse_composite-compose_request_id op start token (inr e) fits = rw e (
    parse_composite_of_segment op_seg_update update start token
      (unfold segment_operation ◌===◌ in refl) (omega arith) fits)

-- A request id without the prefix, as Cloud Control's own tokens, is none of ours.
pub parse_composite-plain :
    (s : Text) → ((rest : Text) → s ≢ phase_b_prefix ++ rest) → parse_composite s ≡ none
unfolding parse_composite
parse_composite-plain s h = elim (Option-cases (strip_prefix phase_b_prefix s)) [
  | inl e ↦ rw (parse_composite, e)
  | inr (rest, e) ↦ absurd (h rest (strip_prefix_sound phase_b_prefix s rest e))
]

nonempty_names_lem :
    (cluster service : Text)
    → cluster ≢ []
    → service ≢ []
    → nonempty_names cluster service ≡ some (record { cluster = cluster; service = service })
unfolding nonempty_names
nonempty_names_lem [] service h k = absurd (h refl)
nonempty_names_lem (c ∷ cluster) [] h k = absurd (k refl)
nonempty_names_lem (c ∷ cluster) (d ∷ service) h k = refl

canonical_names_of_cuts :
    (s arn cluster path service : Text)
    → cut_last b'|' s ≡ some (arn, cluster)
    → cut_last b'/' arn ≡ some (path, service)
    → canonical_names s ≡ nonempty_names cluster service
unfolding canonical_names
canonical_names_of_cuts s arn cluster path service e e' = rw (canonical_names, e) (rw e')

-- The native id that a create makes up while Cloud Control has none.
pub pending_native_id_lem :
    (cluster service : Text)
    → Lacks b'|' cluster
    → cluster ≢ []
    → service ≢ []
    → parse_cluster_and_service (pending_native_id cluster service)
      ≡ some (record { cluster = cluster; service = service })
unfolding parse_cluster_and_service pending_native_id strip_prefix
pending_native_id_lem cluster service hc ne ne' =
    rw (split_n3-join b'|' (codes "pending") cluster service (omega arith) hc)
      (nonempty_names_lem cluster service ne ne')

-- The canonical native id, of a service ARN and a cluster name, names both, and so does the one that
-- a create makes up; if both are not empty, the cluster has no bar and the service no slash.
pub parse_cluster_and_service_lem :
    (path cluster service : Text)
    → Lacks b'|' cluster
    → Lacks b'/' service
    → cluster ≢ []
    → service ≢ []
    → (parse_cluster_and_service
          (build_canonical_native_id (codes "arn:" ++ (path ++ b'/' ∷ service)) cluster)
        ≡ some (record { cluster = cluster; service = service }))
      × (parse_cluster_and_service (pending_native_id cluster service)
          ≡ some (record { cluster = cluster; service = service }))
unfolding parse_cluster_and_service build_canonical_native_id strip_prefix
parse_cluster_and_service_lem path cluster service hc hs ne ne' = (
  canonical_names_of_cuts _ (codes "arn:" ++ (path ++ b'/' ∷ service)) cluster
        (codes "arn:" ++ path) service
        (cut_last-append b'|' (codes "arn:" ++ (path ++ b'/' ∷ service)) cluster hc)
        (cut_last-append b'/' (codes "arn:" ++ path) service hs)
      ∙ nonempty_names_lem cluster service ne ne',
  pending_native_id_lem cluster service hc ne ne',
)
