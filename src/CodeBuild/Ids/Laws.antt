-- ===== src/CodeBuild/Ids/Laws.antt =====
-- A request id is decoded to the state that it was made of.
use formae_plugin_aws.Prelude.{ℕ, suc, ◌≡◌, some, [], ◌∷◌, ◌++◌, inl, arith, ◌∙◌, ap, append-nil}
use formae_plugin_aws.Text.{Text, codes, join}
use formae_plugin_aws.Text.Split.{Lacks, cut-append}
use formae_plugin_aws.CodeBuild.Client.{ImageBuild}
use formae_plugin_aws.CodeBuild.Ids.{
  split_n, RequestState, encode_request_id, timed_state, state_of, decode_request_id,
}

pub split_n-append :
    (sep n : ℕ) (p r : Text)
    → Lacks sep p
    → split_n sep (suc n) (p ++ sep ∷ r) ≡ p ∷ split_n sep n r
unfolding split_n
split_n-append sep n p r h = ground (arith, cut-append sep p r h)

split_n-last : (sep : ℕ) (s : Text) → split_n sep 0 (s ++ []) ≡ s ∷ []
unfolding split_n
split_n-last sep s = ap (λ t. t ∷ []) (append-nil s)

split_n-join :
    (a b c d e f g : Text)
    → Lacks b'|' a
      × (Lacks b'|' b × (Lacks b'|' c × (Lacks b'|' d × (Lacks b'|' e × Lacks b'|' f))))
    → split_n b'|' 6 (join (codes "|") (a ∷ b ∷ c ∷ d ∷ e ∷ f ∷ g ∷ []))
      ≡ a ∷ b ∷ c ∷ d ∷ e ∷ f ∷ g ∷ []
unfolding join
split_n-join a b c d e f g (ha, (hb, (hc, (hd, (he, hf))))) =
    split_n-append b'|' 5 a _ ha
    ∙ ap (λ t. a ∷ t)
        (split_n-append b'|' 4 b _ hb
          ∙ ap (λ t. b ∷ t)
              (split_n-append b'|' 3 c _ hc
                ∙ ap (λ t. c ∷ t)
                    (split_n-append b'|' 2 d _ hd
                      ∙ ap (λ t. d ∷ t)
                          (split_n-append b'|' 1 e _ he
                            ∙ ap (λ t. e ∷ t)
                                (split_n-append b'|' 0 f _ hf
                                  ∙ ap (λ t. f ∷ t) (split_n-last b'|' g))))))

-- The request id that is made of a state is decoded to just that state, where no part but the last,
-- the digest to prune, has a bar, and the time that is written is read as it was.
pub decode_request_id-encode_request_id {ℓ} :
    {W : Type ℓ} (a : ImageBuild W) (s : RequestState)
    → Lacks b'|' s.operation
      × (Lacks b'|' s.build_id
          × (Lacks b'|' s.repo_uri
              × (Lacks b'|' s.tag
                  × (Lacks b'|' (a.format_time s.deadline) × Lacks b'|' s.build_config_hash))))
    → a.parse_time (a.format_time s.deadline) ≡ some s.deadline
    → decode_request_id a (encode_request_id a s) ≡ inl s
unfolding decode_request_id encode_request_id
decode_request_id-encode_request_id a s h t =
    ap (state_of a (encode_request_id a s)) (
      split_n-join s.operation s.build_id s.repo_uri s.tag (a.format_time s.deadline)
        s.build_config_hash s.prior_digest h)
    ∙ ap
        (λ o.
          timed_state a s.operation s.build_id s.repo_uri s.tag (a.format_time s.deadline) o
            s.build_config_hash s.prior_digest)
        t
