-- ===== src/Ecs/PhaseB/Last.antt =====
-- What the end of the second phase answers for a stable service.
use formae_plugin_aws.Prelude.Int.{ℤ, ◌+ℤ◌}
use formae_plugin_aws.Prelude.{
  ◌≡◌, refl, ap, sym, subst, ◌∙◌, inl, inr, true, false, Bool-cases, Option-cases, Option, none,
  some, Io, pure,
}
use formae_plugin_aws.Text.{Text}
use formae_plugin_aws.Go.{GoError, Outcome, returned, succeed, deref}
use formae_plugin_aws.Go.Laws.{after_known}
use formae_plugin_aws.Sdk.{
  Operation, ProgressResult, StatusRequest, ReadRequest, ReadResult, ErrorCode,
}
use formae_plugin_aws.Ecs.Classify.{terminal_failure, classify_read_result_for_final}
use formae_plugin_aws.Ecs.Classify.Laws.{classify_read_result_for_final_good}
use formae_plugin_aws.Ecs.Timeout.{
  Service, EcsService, bounded_in_progress, in_progress_or_timeout,
  in_progress_or_final_read_timeout, classify_for_status,
}
use formae_plugin_aws.Ecs.Timeout.Laws.{bounded_in_progress-Bounded, classify_for_status-Classified}
use formae_plugin_aws.Ecs.Elb.{ElbClient, Composition}
use formae_plugin_aws.Ecs.Endpoints.{compose_endpoints}
use formae_plugin_aws.Ecs.Reading.{service_read}
use formae_plugin_aws.Ecs.PhaseA.{handle}
use formae_plugin_aws.Ecs.Final.{
  give, final_result, final_read, after_endpoints, check_endpoints, after_health, check_health,
  elb_checks, final_success, Health, needs_target_health, check_all_tgs_healthy,
}
use formae_plugin_aws.Ecs.PhaseB.{waiting}
use formae_plugin_aws.Ecs.PhaseB.Answers.{
  Failing, Stable, Lost, Unlooked, Unready, Cause, Fit, Sound,
}

module _ {ℓ} {W : Type ℓ} (s : Service W) (request : StatusRequest) (op : Operation) (start : ℤ)
    (cluster service : Text) (w : W) where
  pub waiting-Sound :
      (msg : Text) (v : W)
      → Cause s request op start cluster service w
      → Sound s request op start cluster service w (waiting s request op start msg v)
  unfolding in_progress_or_timeout bounded_in_progress
  waiting-Sound msg v c =
      let b = bounded_in_progress-Bounded s op request start s.operation_timeout msg v in
      inr (_, (refl, (b.0, inl (c, (v, (refl, b))))))

  pub lost-Sound :
      (code : ErrorCode) (id native msg : Text) (v : W)
      → Lost s request op start cluster service w
      → Sound s request op start cluster service w
          (give s (pure (terminal_failure op native id code msg)) v)
  unfolding terminal_failure
  lost-Sound code id native msg v l = inr (_, (refl, (refl, inr (inl (refl, inl l)))))

  refused-Sound :
      (e : GoError) (context : Text) (v : W)
      → Failing s request op start cluster service w e v
      → Sound s request op start cluster service w
          (give s (classify_for_status s e op request start context) v)
  refused-Sound e context v f =
      elim (classify_for_status-Classified s e op request start context v) [
        | inl (passing, (last, h)) ↦
            inr (_, (refl, (h.0, inl (inl (e, (v, (f, passing))), (v, (last, h))))))
        | inr (lasting, (last, (o, (failed, code)))) ↦ inr (
          _,
          (
            refl,
            (
              o,
              inr (
                  inl (
                    failed,
                    inr (
                      e,
                      (
                        subst (Failing s request op start cluster service w e) (sym last) f,
                        (lasting, code),
                      ),
                    ),
                  )),
            ),
          ),
        )
      ]

  pub handled {κ} :
      {A : Type κ} (err : Option GoError) (out : Option A) (context : Text)
      (k : A → Io W (Outcome ProgressResult)) (v : W)
      → ((e : GoError) → err ≡ some e → Failing s request op start cluster service w e v)
      → ((a : A) → err ≡ none → out ≡ some a → Sound s request op start cluster service w (k a v))
      → Sound s request op start cluster service w (
          handle err
            (λ e. give s (classify_for_status s e op request start context))
            (deref out k)
            v)
  handled (some e) out context k v f h = refused-Sound e context v (f e refl)
  handled none none context k v f h = inl refl
  handled none (some a) context k v f h = h a refl refl

  -- From a stable service on.
  module _ (svc : EcsService) (stable : Stable s request op start cluster service w svc) where
    final_result-Sound :
        (asked : ReadRequest) (rr : Option ReadResult) (err : Option GoError) (v v' : W)
        → Fit s request op start cluster service w svc
        → service_read s asked v ≡ (returned rr err, v')
        → Sound s request op start cluster service w
            (give s (final_result s op request start asked.native_id rr err) v')
    unfolding in_progress_or_final_read_timeout bounded_in_progress terminal_failure
    final_result-Sound asked rr err v v' fit told =
        let verdict = classify_read_result_for_final rr err in
        elim (Bool-cases verdict.2) [
          | inl good ↦
              let (found, (there, (fine, (_, ne)))) =
                (classify_read_result_for_final_good rr err).0 good in
              let read : service_read s asked v ≡ (succeed found, v') =
                told
                ∙ (ap (λ x. (returned x err, v')) there
                    ∙ ap (λ x. (returned (some found) x, v')) fine) in
              rw good (
                inr (
                  _,
                  (
                    refl,
                    (
                      refl,
                      inr (
                          inr (
                            svc,
                            (
                              stable,
                              inr (
                                fit,
                                inr (
                                  refl,
                                  (asked, (found, (v, (read, (refl, (rw there refl, ne)))))),
                                ),
                              ),
                            ),
                          )),
                    ),
                  ),
                ))
          | inr bad ↦ elim (Bool-cases verdict.1) [
            | inl again ↦
                rw (bad, again)
                  (let b =
                      bounded_in_progress-Bounded s op request start
                        (s.operation_timeout +ℤ s.final_read_grace) _ v' in
                    inr
                      (_, (refl, (b.0, inr (inr (svc, (stable, inr (fit, inl (v', (refl, b))))))))))
            | inr over ↦
                rw (bad, over)
                  (inr (
                    _,
                    (
                      refl,
                      (
                        refl,
                        inr (
                            inr (
                              svc,
                              (
                                stable,
                                inl (
                                  refl,
                                  inr (asked, (rr, (err, (v, (told, (over, (bad, refl))))))),
                                ),
                              ),
                            )),
                      ),
                    ),
                  ))
          ]
        ]

    final_read-Sound :
        (v : W)
        → Fit s request op start cluster service w svc
        → Sound s request op start cluster service w (final_read s request op start svc v)
    unfolding final_read
    final_read-Sound v fit =
        after_known (Sound s request op start cluster service w) (service_read s _) _ v
          (λ v'. inl refl) (λ rr err v' asked. final_result-Sound _ rr err v v' fit asked)

    module _ (needed : needs_target_health svc ≡ true) where
      looked_at :
          Unready s request op start cluster service w svc
          → Cause s request op start cluster service w
      looked_at unready =
          let (primary, (active, steady)) = stable in
          inr (inr (svc, (primary, (active, inr (inr (needed, unready))))))

      -- An error of the load balancing API: waited for, or a failure of a stable service.
      refused_later :
          (e : GoError) (context : Text) (v : W)
          → Unlooked s request op start cluster service w svc e v
          → Sound s request op start cluster service w
              (give s (classify_for_status s e op request start context) v)
      refused_later e context v f =
          elim (classify_for_status-Classified s e op request start context v) [
            | inl (passing, (last, h)) ↦
                inr (_, (refl, (h.0, inl (looked_at (inl (e, (v, (f, passing)))), (v, (last, h))))))
            | inr (lasting, (last, (o, (failed, code)))) ↦ inr (
              _,
              (
                refl,
                (
                  o,
                  inr (
                      inr (
                        svc,
                        (
                          stable,
                          inl (
                            failed,
                            inl (
                              e,
                              (
                                subst (Unlooked s request op start cluster service w svc e)
                                    (sym last) f,
                                (lasting, code),
                              ),
                            ),
                          ),
                        ),
                      )),
                ),
              ),
            )
          ]

      handled_later {κ} :
          {A : Type κ} (err : Option GoError) (out : Option A) (context : Text)
          (k : A → Io W (Outcome ProgressResult)) (v : W)
          → ((e : GoError) → err ≡ some e → Unlooked s request op start cluster service w svc e v)
          → ((a : A)
              → err ≡ none
              → out ≡ some a
              → Sound s request op start cluster service w (k a v))
          → Sound s request op start cluster service w (
              handle err
                (λ e. give s (classify_for_status s e op request start context))
                (deref out k)
                v)
      handled_later (some e) out context k v f h = refused_later e context v (f e refl)
      handled_later none none context k v f h = inl refl
      handled_later none (some a) context k v f h = h a refl refl

      after_endpoints-Sound :
          (elb : ElbClient W) (composed : Composition) (err : Option GoError) (v v' : W)
          → Fit s request op start cluster service w svc
          → compose_endpoints s.pause elb svc.load_balancers v ≡ (returned (some composed) err, v')
          → Sound s request op start cluster service w
              (after_endpoints s request op start svc composed v')
      unfolding after_endpoints
      after_endpoints-Sound elb composed err v v' fit told =
          elim (Option-cases composed.transient_error) [
            | inl e ↦ rw (after_endpoints, e) (final_read-Sound v' fit)
            | inr (x, e) ↦
                rw (after_endpoints, e)
                  (waiting-Sound _ v'
                    (looked_at (inr (inr (elb, (composed, (err, (v, (v', (x, (told, e)))))))))))
          ]

      deref_endpoints-Sound :
          (elb : ElbClient W) (out : Option Composition) (err : Option GoError) (v v' : W)
          → Fit s request op start cluster service w svc
          → compose_endpoints s.pause elb svc.load_balancers v ≡ (returned out err, v')
          → Sound s request op start cluster service w
              (deref out (after_endpoints s request op start svc) v')
      deref_endpoints-Sound elb none err v v' fit told = inl refl
      deref_endpoints-Sound elb (some composed) err v v' fit told =
          after_endpoints-Sound elb composed err v v' fit told

      check_endpoints-Sound :
          (elb : ElbClient W) (v : W)
          → Fit s request op start cluster service w svc
          → Sound s request op start cluster service w
              (check_endpoints s request op start svc elb v)
      unfolding check_endpoints
      check_endpoints-Sound elb v fit =
          after_known (Sound s request op start cluster service w)
            (compose_endpoints s.pause elb svc.load_balancers) _ v (λ v'. inl refl)
            (λ out err v' asked. deref_endpoints-Sound elb out err v v' fit asked)

      after_health-Sound :
          (elb : ElbClient W) (health : Health) (v v' : W)
          → check_all_tgs_healthy elb svc.load_balancers v ≡ (succeed health, v')
          → Sound s request op start cluster service w
              (after_health s request op start svc elb health v')
      unfolding after_health
      after_health-Sound elb (true, messages) v v' told =
          check_endpoints-Sound elb v' (inr (elb, (messages, (v, (v', told)))))
      after_health-Sound elb (false, messages) v v' told =
          waiting-Sound _ v' (looked_at (inr (inl (elb, (messages, (v, (v', told)))))))

      check_health-Sound :
          (elb : ElbClient W) (v : W)
          → Sound s request op start cluster service w (check_health s request op start svc elb v)
      unfolding check_health
      check_health-Sound elb v =
          after_known (Sound s request op start cluster service w)
            (check_all_tgs_healthy elb svc.load_balancers) _ v (λ v'. inl refl)
            (λ health err v' asked.
              handled_later err health _ (after_health s request op start svc elb) v'
                (λ e p. inr (elb, (health, (v, asked ∙ ap (λ x. (returned health x, v')) p))))
                (λ h p q. after_health-Sound elb h v v' (
                  asked
                  ∙ (ap (λ x. (returned x err, v')) q ∙ ap (λ x. (returned (some h) x, v')) p))))

      elb_checks-Sound :
          (factory : Option (Io W (Outcome (ElbClient W)))) (v : W)
          → s.elb_client ≡ factory
          → Sound s request op start cluster service w (elb_checks s factory request op start svc v)
      unfolding elb_checks
      elb_checks-Sound none v own = inl refl
      elb_checks-Sound (some factory) v own =
          after_known (Sound s request op start cluster service w) factory _ v (λ v'. inl refl)
            (λ elb err v' asked.
              handled_later err elb _ (check_health s request op start svc) v'
                (λ e p. inl (factory, (elb, (v, (own, asked ∙ ap (λ x. (returned elb x, v')) p)))))
                (λ client p q. check_health-Sound client v'))

    pub final_success-Sound :
        (v : W)
        → Sound s request op start cluster service w (final_success s request op start svc v)
    unfolding final_success
    final_success-Sound v = elim (Bool-cases (needs_target_health svc)) [
      | inl needed ↦ rw (final_success, needed) (elb_checks-Sound needed s.elb_client v refl)
      | inr plain ↦ rw (final_success, plain) (final_read-Sound v (inl plain))
    ]
