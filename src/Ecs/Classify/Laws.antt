-- ===== src/Ecs/Classify/Laws.antt =====
-- The verdicts on errors and on the last read.
use formae_plugin_aws.Prelude.{
  ◌≡◌, ◌≢◌, refl, sym, ◌∙◌, subst, ◌↔◌, inl, inr, Bool, true, false, Option, none, some, [], List,
  ◌∷◌, All, Bool-cases, Option-cases, arith,
}
use mathlib.Core.Option.{some-injective}
use formae_plugin_aws.Text.{Text, ◌===◌}
use formae_plugin_aws.Go.{GoError, ApiError}
use formae_plugin_aws.Sdk.{
  ErrorCode, is_not_found, no_code, throttling, network_failure, service_internal_error, Operation,
  ReadResult,
}
use formae_plugin_aws.Ecs.Classify.{
  Verdict, verdict_table, verdict_of, api_verdict, network_verdict, classify_aws_error,
  recoverable_verdict, classify_for_entry, final_verdict, classify_read_result_for_final,
}

-- The codes that stand for a passing condition.
abbrev pub is_passing : ErrorCode → Bool
is_passing throttling = true
is_passing network_failure = true
is_passing service_internal_error = true
is_passing _ = false

-- What holds of the rows of the table and of the verdicts on network errors holds of every verdict.
module _ (P : Verdict → Type 0) where
  verdict_of_holds :
      (table : List (Text × Verdict)) (name : Text) (v : Verdict)
      → All (λ row. P row.1) table
      → verdict_of table name ≡ some v
      → P v
  unfolding verdict_of
  verdict_of_holds [] name v rows e = ground arith
  verdict_of_holds ((key, u) ∷ table) name v (row, rows) e = elim (Bool-cases (name === key)) [
    | inl same ↦ let e' : some u ≡ some v = sym (rw same) ∙ e in subst P (some-injective u v e') row
    | inr other ↦ verdict_of_holds table name v rows (sym (rw other) ∙ e)
  ]

  api_verdict_holds :
      (err : Option ApiError) (v : Verdict)
      → All (λ row. P row.1) verdict_table
      → api_verdict err ≡ some v
      → P v
  unfolding api_verdict
  api_verdict_holds none v rows e = ground arith
  api_verdict_holds (some ae) v rows e = verdict_of_holds verdict_table ae.code v rows e

  classify_aws_error_holds :
      (err : GoError)
      → All (λ row. P row.1) verdict_table
      → ((net : Option Bool) → P (network_verdict net))
      → P (classify_aws_error (some err))
  unfolding classify_aws_error
  classify_aws_error_holds err rows net = elim (Option-cases (api_verdict err.api_error)) [
    | inl e ↦ rw e (net err.net_timeout)
    | inr (v, e) ↦ rw e (api_verdict_holds err.api_error v rows e)
  ]

abbrev Coherent : Verdict → Type 0
Coherent v = v.1 ≡ is_passing v.0

classify_aws_error-Coherent : (err : GoError) → Coherent (classify_aws_error (some err))
classify_aws_error-Coherent err = classify_aws_error_holds Coherent err (search) net
  where
    net : (n : Option Bool) → Coherent (network_verdict n)
    net (some true) = refl
    net (some false) = refl
    net none = refl

-- No AWS error is taken for a resource that is not there.
pub classify_aws_error-found :
    (err : GoError) → is_not_found (classify_aws_error (some err)).0 ≡ false
classify_aws_error-found err =
    classify_aws_error_holds (λ v. is_not_found v.0 ≡ false) err (search) net
  where
    net : (n : Option Bool) → is_not_found (network_verdict n).0 ≡ false
    net (some true) = refl
    net (some false) = refl
    net none = refl

recoverable_verdict_same : (v : Verdict) → Coherent v → recoverable_verdict v ≡ v.0
recoverable_verdict_same (code, true) h = ground arith
recoverable_verdict_same (code, false) h = ground arith

-- An error is worth another try exactly if its code is that of throttling, of a network failure or
-- of an internal error of the service; and the result of a failed entry carries just that code.
pub classify_for_entry-is_passing :
    (err : GoError) (op : Operation) (native_id context : Text)
    → ((classify_aws_error (some err)).1
        ≡ is_passing (classify_for_entry err op native_id context).error_code)
      × ((classify_for_entry err op native_id context).error_code
          ≡ (classify_aws_error (some err)).0)
unfolding classify_for_entry
classify_for_entry-is_passing err op native_id context =
    let coherent = classify_aws_error-Coherent err in
    let same = recoverable_verdict_same _ coherent in (rw same coherent, same)

final_verdict_good :
    (code : ErrorCode) (properties : Text)
    → (final_verdict code properties).2 ≡ true ↔ (code ≡ no_code) × (properties ≢ [])
final_verdict_good code properties = ground arith

-- The last read is good exactly if there is no error and its result has no error code and has
-- properties.
pub classify_read_result_for_final_good :
    (rr : Option ReadResult) (err : Option GoError)
    → (classify_read_result_for_final rr err).2 ≡ true
      ↔ (r : ReadResult) × ((rr ≡ some r)
          × ((err ≡ none) × ((r.error_code ≡ no_code) × (r.properties ≢ []))))
unfolding classify_read_result_for_final
classify_read_result_for_final_good rr (some x) =
    (λ e. ground arith, λ (r, (_, (e, _))). ground arith)
classify_read_result_for_final_good none none = (λ e. ground arith, λ (r, (e, _)). ground arith)
classify_read_result_for_final_good (some rr) none = (
  λ e. (rr, (refl, (refl, (final_verdict_good rr.error_code rr.properties).0 e))),
  λ (r, (there, (_, good))).
      let same = some-injective rr r there in
      (final_verdict_good rr.error_code rr.properties).1 (rw same good),
)
