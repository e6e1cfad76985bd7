-- ===== src/Iam/Membership/Listing.antt =====
-- The pages of a group are one list of members to a read.
use formae_plugin_aws.Prelude.{
  ℕ, zero, suc, ◌≤◌, arith, ◌≡◌, refl, inl, inr, Bool, true, false, ◌||◌, Option, none, some, List,
  [], ◌∷◌, ◌++◌, Bool-cases, ◌∙◌, ap, sym,
}
use formae_plugin_aws.Text.{Text, ◌===◌}
use formae_plugin_aws.Go.{Outcome, succeed, fail}
use formae_plugin_aws.Go.Laws.{call_ok}
use formae_plugin_aws.Sdk.{ReadRequest}
use formae_plugin_aws.Properties.{unless_bad}
use formae_plugin_aws.Iam.Membership.{
  GroupPage, GroupClient, Membership, has_user, page_answer, contains_from, group_contains_user,
  parse_membership_id, membership_result, unread, read_in, membership_read,
}

has_user-append :
    (user : Text) (a b : List (Option Text))
    → has_user user (a ++ b) ≡ (has_user user a || has_user user b)
unfolding has_user
has_user-append user [] b = refl
has_user-append user (none ∷ a) b = has_user-append user a b
has_user-append user (some name ∷ a) b = elim (Bool-cases (name === user)) [
  | inl e ↦ rw e refl
  | inr e ↦ rw e (has_user-append user a b)
]

abbrev pages_count : List GroupPage → ℕ
pages_count [] = 1
pages_count (q ∷ more) = suc (pages_count more)

-- The users of a page and of those after it.
abbrev names_of : GroupPage → List GroupPage → List (Option Text)
names_of page [] = page.user_names
names_of page (next ∷ more) = page.user_names ++ names_of next more

module _ {ℓ} {W : Type ℓ} (client : GroupClient W) (group : Text) where
  -- From a marker on, the group has a page and those after it, in any world, and a call changes
  -- nothing.
  abbrev Pages : Option Text → GroupPage → List GroupPage → Type ℓ
  Pages marker page [] =
      ((w : W) → client.get_group group marker w ≡ (succeed page, w)) × (page.is_truncated ≡ false)
  Pages marker page (next ∷ more) =
      ((w : W) → client.get_group group marker w ≡ (succeed page, w))
      × ((page.is_truncated ≡ true)
          × ((m : Text) × ((page.marker ≡ some m) × Pages (some m) next more)))

  page_answer-last :
      (user : Text) (page : GroupPage) (rest : Outcome Bool × W) (w : W)
      → page.is_truncated ≡ false
      → page_answer user page rest w ≡ (succeed (has_user user page.user_names), w)
  page_answer-last user page rest w t = elim (Bool-cases (has_user user page.user_names)) [
    | inl e ↦ rw (page_answer, e) refl
    | inr e ↦ rw (page_answer, e, t) refl
  ]

  page_answer-more :
      (user m : Text) (page : GroupPage) (found : Bool) (w : W)
      → page.is_truncated ≡ true
      → page.marker ≡ some m
      → page_answer user page (succeed found, w) w
        ≡ (succeed (has_user user page.user_names || found), w)
  page_answer-more user m page found w t k = elim (Bool-cases (has_user user page.user_names)) [
    | inl e ↦ rw (page_answer, e) refl
    | inr e ↦ rw (page_answer, e, t, k) refl
  ]

  contains_from-Pages :
      (n : ℕ) (user : Text) (marker : Option Text) (page : GroupPage) (more : List GroupPage)
      (w : W)
      → Pages marker page more
      → pages_count more ≤ n
      → contains_from n client group user marker w
        ≡ (succeed (has_user user (names_of page more)), w)
  unfolding contains_from
  contains_from-Pages zero user marker page [] w h b = absurd (omega (arith, b))
  contains_from-Pages zero user marker page (q ∷ more) w h b = absurd (omega (arith, b))
  contains_from-Pages (suc n) user marker page [] w (answer, last) b =
      call_ok (client.get_group group marker) fail _ w w page (answer w)
      ∙ page_answer-last user page _ w last
  contains_from-Pages (suc n) user marker page (next ∷ more) w (answer, (t, (m, (e, h)))) b =
      let later = contains_from-Pages n user (some m) next more w h (omega (arith, b)) in
      call_ok (client.get_group group marker) fail _ w w page (answer w)
      ∙ (ap (λ o. page_answer user page (contains_from n client group user o w) w) e
          ∙ (ap (λ r. page_answer user page r w) later
              ∙ (page_answer-more user m page (has_user user (names_of next more)) w t e
                  ∙ ap (λ x. (succeed x, w))
                      (sym (has_user-append user page.user_names (names_of next more))))))

-- A read of a membership, whose group has a finite number of pages, not more than `pages`, looks at
-- all of them: its answer is that the user is in the group just if one of the pages has the user,
-- and it leaves the world as it is.
pub membership_read-Pages {ℓ} :
    {W : Type ℓ} (p : Membership W) (client : GroupClient W) (request : ReadRequest)
    (group user : Text) (page : GroupPage) (more : List GroupPage) (w w' : W)
    → p.group_client w ≡ (succeed client, w')
    → parse_membership_id p request.native_id ≡ inl (group, user)
    → Pages client group none page more
    → pages_count more ≤ p.pages
    → membership_read p request w
      ≡ (succeed (membership_result p request group user (has_user user (names_of page more))), w')
unfolding membership_read group_contains_user
membership_read-Pages p client request group user page more w w' built parsed h b =
    call_ok p.group_client _ _ w w' client built
    ∙ (ap (λ o. unless_bad o fail (read_in p client request) w') parsed
        ∙ call_ok (group_contains_user p client group user) (unread p request group)
            (λ present w. (succeed (membership_result p request group user present), w)) w' w' _
            (contains_from-Pages client group p.pages user none page more w' h b))
