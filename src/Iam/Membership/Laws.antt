-- ===== src/Iam/Membership/Laws.antt =====
-- What the creation of a membership leaves behind.
use formae_plugin_aws.Prelude.{
  ℕ, zero, suc, if◌then◌else◌, ◌≡◌, refl, ◌⊎◌, inl, inr, Bool, true, false, Option, none, some, Io,
  ◌∙◌, sym, subst,
}
use formae_plugin_aws.Text.{Text}
use formae_plugin_aws.Go.{
  GoError, Outcome, NoOutput, returned, panicked, succeed, fail, after, unless_error, deref, call,
}
use formae_plugin_aws.Sdk.{success, ProgressResult}
use formae_plugin_aws.Iam.Membership.{
  GroupPage, GroupClient, Membership, if_marked, page_answer, has_user, membership_id,
  contains_from, group_contains_user, pause_before, after_add, add_from, confirm_from, added_result,
  add_member,
}

-- The members of the groups in the world, as the calls change them.
pub record MemberStore {ℓ} {W : Type ℓ} (p : Membership W) (client : GroupClient W)
    (is_member : W → Text → Text → Bool) : Type ℓ where
  pub adds :
      (group user : Text) (w : W) (out : Option NoOutput)
      → (client.add_user group user w).0 ≡ returned out none
      → is_member (client.add_user group user w).1 group user ≡ true
  pub gets :
      (group user : Text) (marker : Option Text) (w : W)
      → is_member (client.get_group group marker w).1 group user ≡ is_member w group user
  pub waits :
      (group user : Text) (w : W) → is_member (p.pause w) group user ≡ is_member w group user

if_holds {ℓ κ} :
    {A : Type ℓ} (P : A → Type κ) (b : Bool) (x y : A) → P x → P y → P (if b then x else y)
if_holds P true x y hx hy = hx
if_holds P false x y hx hy = hy

module _ {ℓ} {W : Type ℓ} (is_member : W → Text → Text → Bool) (group user : Text) where
  abbrev pub Member : W → Type 0
  Member w = is_member w group user ≡ true

  -- A panic, an error, or a success under the id of the membership, with the user in the group.
  abbrev pub Joined : Outcome ProgressResult × W → Type 0
  Joined (o, w) =
      (o ≡ panicked)
      ⊎ (((e : GoError) × (o ≡ fail e))
          ⊎ ((pr : ProgressResult) × ((o ≡ succeed pr)
                × ((pr.operation_status ≡ success)
                    × ((pr.native_id ≡ membership_id group user) × Member w)))))

module _ {ℓ} {W : Type ℓ} (p : Membership W) (client : GroupClient W)
    (is_member : W → Text → Text → Bool) (store : MemberStore p client is_member)
    (group user : Text) where
  call-Joined :
      {A : Type 0} (m : Io W (Outcome A)) (f : GoError → GoError)
      (k : A → Io W (Outcome ProgressResult)) (w : W)
      → Member is_member group user (m w).1
      → ((a : A) (w' : W) → Member is_member group user w' → Joined is_member group user (k a w'))
      → Joined is_member group user (call m (λ e. fail (f e)) k w)
  unfolding call
  call-Joined m f k w h hk = by_outcome (m w).0
    where
      by_outcome :
          (o : Outcome _)
          → Joined is_member group user
              (after o (λ out err. unless_error err (λ e. fail (f e)) (deref out k)) (m w).1)
      by_outcome panicked = inl refl
      by_outcome (returned out (some e)) = inr (inl (f e, refl))
      by_outcome (returned none none) = inl refl
      by_outcome (returned (some a) none) = hk a _ h

  call-Member :
      {A B : Type 0} (m : Io W (Outcome A)) (f : GoError → Outcome B) (k : A → Io W (Outcome B))
      (w : W)
      → Member is_member group user (m w).1
      → ((a : A) (w' : W) → Member is_member group user w' → Member is_member group user (k a w').1)
      → Member is_member group user (call m f k w).1
  unfolding call
  call-Member m f k w h hk = by_outcome (m w).0
    where
      by_outcome :
          (o : Outcome _)
          → Member is_member group user
              (after o (λ out err. unless_error err f (deref out k)) (m w).1).1
      by_outcome panicked = h
      by_outcome (returned out (some e)) = h
      by_outcome (returned none none) = h
      by_outcome (returned (some a) none) = hk a _ h

  page_answer-Member :
      (page : GroupPage) (rest : Outcome Bool × W) (w : W)
      → Member is_member group user w
      → Member is_member group user rest.1
      → Member is_member group user (page_answer user page rest w).1
  page_answer-Member page rest w h hr =
      if_holds (λ (x : Outcome Bool × W). Member is_member group user x.1)
        (has_user user page.user_names) _ _ h
        (if_holds (λ (x : Outcome Bool × W). Member is_member group user x.1) page.is_truncated _ _
          (marked page.marker) h)
    where
      marked : (o : Option Text) → Member is_member group user (if_marked o rest w).1
      marked none = h
      marked (some m) = hr

  contains_from-Member :
      (pages : ℕ) (marker : Option Text) (w : W)
      → Member is_member group user w
      → Member is_member group user (contains_from pages client group user marker w).1
  unfolding contains_from
  contains_from-Member zero marker w h = h
  contains_from-Member (suc pages) marker w h =
      call-Member (client.get_group group marker) fail _ w (store.gets group user marker w ∙ h)
        (λ page w' h'.
          page_answer-Member page _ w' h' (contains_from-Member pages page.marker w' h'))

  pause_before-Member :
      (left : ℕ) (w : W)
      → Member is_member group user w
      → Member is_member group user (pause_before p left w)
  pause_before-Member zero w h = h
  pause_before-Member (suc left) w h = store.waits group user w ∙ h

  confirm_from-Joined :
      (left : ℕ) (k : Io W (Outcome ProgressResult)) (w : W)
      → ((w' : W) → Member is_member group user w' → Joined is_member group user (k w'))
      → Member is_member group user w
      → Joined is_member group user (confirm_from p client group user left k w)
  unfolding confirm_from
  confirm_from-Joined zero k w hk h = hk w h
  confirm_from-Joined (suc left) k w hk h =
      call-Joined (group_contains_user p client group user) _ _ w
        (unfold group_contains_user in contains_from-Member p.pages none w h)
        (λ present w' h'.
          if_holds (Joined is_member group user) present _ _ (hk w' h') (
            confirm_from-Joined left k (pause_before p left w') hk
              (pause_before-Member left w' h')))

  -- One attempt to add the user, with what comes after an error.
  send-Joined :
      (left : ℕ) (next : Option GoError → Io W (Outcome ProgressResult))
      (k : Io W (Outcome ProgressResult)) (w : W)
      → ((e : GoError) (w' : W) → Joined is_member group user (next (some e) w'))
      → ((w' : W) → Member is_member group user w' → Joined is_member group user (k w'))
      → Joined is_member group user (
          after
            (client.add_user group user w).0
            (λ out err. after_add p group user left err (next err) k)
            (client.add_user group user w).1)
  send-Joined left next k w hn hk =
      by_outcome (client.add_user group user w).0 (store.adds group user w)
    where
      by_outcome :
          (o : Outcome NoOutput)
          → ((out : Option NoOutput)
              → o ≡ returned out none
              → Member is_member group user (client.add_user group user w).1)
          → Joined is_member group user (
              after o
                (λ out err. after_add p group user left err (next err) k)
                (client.add_user group user w).1)
      by_outcome panicked law = inl refl
      by_outcome (returned out none) law = hk _ (law out refl)
      by_outcome (returned out (some e)) law =
          if_holds (Joined is_member group user) e.is_missing _ _ (hn e _) (inr (inl (_, refl)))

  add_from-Joined :
      (left : ℕ) (last : GoError) (k : Io W (Outcome ProgressResult)) (w : W)
      → ((w' : W) → Member is_member group user w' → Joined is_member group user (k w'))
      → Joined is_member group user (add_from p client group user left (some last) k w)
  unfolding add_from
  add_from-Joined zero last k w hk = inr (inl (_, refl))
  add_from-Joined (suc left) last k w hk =
      send-Joined left (λ err. add_from p client group user left err k) k w
        (λ e w'. add_from-Joined left e k w' hk) hk

-- Adding a member, with at least one attempt and a client that keeps the members of groups as IAM
-- does, panics, gives an error, or gives a success under the id of the membership, with the user in
-- the group: it is never a success for a user that was not added.
pub add_member-Joined {ℓ} :
    {W : Type ℓ} (p : Membership W) (client : GroupClient W) (is_member : W → Text → Text → Bool)
    (group user : Text) (left : ℕ) (w : W)
    → MemberStore p client is_member
    → p.add_attempts ≡ suc left
    → Joined is_member group user (add_member p client group user w)
unfolding add_member add_from group_contains_user
add_member-Joined {W = W} p client is_member group user left w store e =
    let done : Io W (Outcome ProgressResult) = λ w'. (succeed (added_result p group user), w') in
    let k = confirm_from p client group user p.read_attempts done in
    let joined = λ (w' : W) (h : Member is_member group user w').
      confirm_from-Joined p client is_member store group user p.read_attempts done w'
        (λ w'' h'. inr (inr (_, (refl, (refl, (refl, h')))))) h in
    subst (λ n. Joined is_member group user (add_from p client group user n none k w)) (sym e)
      (send-Joined p client is_member store group user left
        (λ err. add_from p client group user left err k) k w
        (λ x w'. add_from-Joined p client is_member store group user left x k w' joined) joined)
