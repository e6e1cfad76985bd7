-- ===== src/Iam/Membership.antt =====
-- The provisioner of AWS::IAM::UserToGroupAddition, pkg/cfres/iam/usertogroupaddition.go: that one user
-- is in one group.
pub mod Laws
pub mod Listing
use formae_plugin_aws.Prelude.{
  ℕ, zero, suc, Bool, true, false, ◌||◌, not, Option, none, some, List, [], ◌∷◌, ◌++◌,
  if◌then◌else◌, Io, ◌⊎◌, inl, inr,
}
use formae_plugin_aws.Text.{Text, codes, ◌===◌, is_empty}
use formae_plugin_aws.Go.{
  GoError, new_error, wrap_error, Outcome, NoOutput, returned, panicked, succeed, fail, after,
  attempt, call,
}
use formae_plugin_aws.Sdk.{
  no_code, not_found, create, delete, ProgressResult, done_result, CreateRequest, UpdateRequest,
  DeleteRequest, StatusRequest, ReadRequest, ReadResult, ListRequest, ListResult,
}
use formae_plugin_aws.Json.{Json, string, object, end, field, Codec}
use formae_plugin_aws.Properties.{get_string_property, unless_bad, decode_or}
use formae_plugin_aws.CodeBuild.Ids.{split_n}

-- iam.GetGroupOutput; a user is its name.
pub record GroupPage : Type 0 where
  pub user_names : List (Option Text)
  pub is_truncated : Bool
  pub marker : Option Text

-- The calls name a group, and a marker or a user.
pub record GroupClient {ℓ} (W : Type ℓ) : Type ℓ where
  pub get_group : Text → Option Text → Io W (Outcome GroupPage)
  pub add_user : Text → Text → Io W (Outcome NoOutput)
  pub remove_user : Text → Text → Io W (Outcome NoOutput)

-- The struct UserToGroupAddition, with its pause between two attempts, and what it uses of packages
-- outside the repository. The loop over the pages of a group has no bound in the code; here a call
-- that reads more than `pages` of them does not come back, which is written as a panic.
pub record Membership {ℓ} (W : Type ℓ) : Type ℓ where
  pub group_client : Io W (Outcome (GroupClient W))
  pub add_attempts : ℕ
  pub read_attempts : ℕ
  pub pause : W → W
  pub codec : Codec
  pub quote : Text → Text
  pub pages : ℕ

unfoldable pub has_user : Text → List (Option Text) → Bool
has_user user [] = false
has_user user (none ∷ names) = has_user user names
has_user user (some name ∷ names) = name === user || has_user user names

abbrev pub membership_id : Text → Text → Text
membership_id group user = group ++ b'|' ∷ user

abbrev pub adding : Text → Text → {A : Type 0} → GoError → Outcome A
adding group user e =
    fail (
      wrap_error (codes "adding user " ++ (user ++ (codes " to group " ++ (group ++ codes ": "))))
        e)

abbrev in_context : Text → {A : Type 0} → GoError → Outcome A
in_context context e = fail (wrap_error context e)

module _ {ℓ} {W : Type ℓ} where
  abbrev pub if_marked : Option Text → Outcome Bool × W → W → Outcome Bool × W
  if_marked none rest w = (succeed false, w)
  if_marked (some m) rest w = rest

  -- After a page: the user is on it, or there is a page after it, or the user is in none.
  abbrev pub page_answer : Text → GroupPage → Outcome Bool × W → W → Outcome Bool × W
  page_answer user page rest w =
      if has_user user page.user_names
      then (succeed true, w)
      else if page.is_truncated
      then if_marked page.marker rest w
      else (succeed false, w)

  unfoldable pub contains_from : ℕ → GroupClient W → Text → Text → Option Text → Io W (Outcome Bool)
  contains_from zero client group user marker w = (panicked, w)
  contains_from (suc pages) client group user marker w =
      call (client.get_group group marker) fail
        (λ page w'. page_answer user page (contains_from pages client group user page.marker w') w')
        w

module _ {ℓ} {W : Type ℓ} (p : Membership W) where
  abbrev invalid_id : Text → GoError
  invalid_id id =
      new_error (codes "invalid NativeID format: expected groupName|userName, got: " ++ p.quote id)

  abbrev membership_of : Text → List Text → (Text × Text) ⊎ GoError
  membership_of id (group ∷ user ∷ []) =
      if is_empty group || is_empty user then inr (invalid_id id) else inl (group, user)
  membership_of id _ = inr (invalid_id id)

  unfoldable pub parse_membership_id : Text → (Text × Text) ⊎ GoError
  unfolding split_n
  parse_membership_id id = membership_of id (split_n b'|' 1 id)

  unfoldable pub group_contains_user : GroupClient W → Text → Text → Io W (Outcome Bool)
  group_contains_user client group user = contains_from p.pages client group user none

  -- The wait before an attempt that is still left.
  abbrev pub pause_before : ℕ → W → W
  pause_before zero w = w
  pause_before (suc left) w = p.pause w

  abbrev pub after_add :
      {B : Type 0}
      → Text
      → Text
      → ℕ
      → Option GoError
      → Io W (Outcome B)
      → Io W (Outcome B)
      → Io W (Outcome B)
  after_add group user left none next k w = k w
  after_add group user left (some e) next k w =
      let again = next (pause_before left w) in
      if e.is_missing then again else (adding group user e, w)

  -- The attempts to add the user that are left, after the error of the last one, if any.
  unfoldable pub add_from :
      {B : Type 0}
      → GroupClient W
      → Text
      → Text
      → ℕ
      → Option GoError
      → Io W (Outcome B)
      → Io W (Outcome B)
  add_from client group user zero none k w = k w
  add_from client group user zero (some e) k w = (adding group user e, w)
  add_from client group user (suc left) last k w =
      let sent = client.add_user group user w in
      after sent.0
        (λ out err. after_add group user left err (add_from client group user left err k) k) sent.1

  -- The polls that are left until the user is seen; without one, the rest goes on all the same.
  unfoldable pub confirm_from :
      {B : Type 0} → GroupClient W → Text → Text → ℕ → Io W (Outcome B) → Io W (Outcome B)
  confirm_from client group user zero k w = k w
  confirm_from client group user (suc left) k w =
      call (group_contains_user client group user)
        (in_context (codes "confirming group membership: "))
        (λ present w'.
          let again = confirm_from client group user left k (pause_before left w') in
          if present then k w' else again)
        w

  abbrev membership_properties : Text → Text → Text
  membership_properties group user = p.codec.marshal (
      object
        (field (codes "GroupName") (string group) (field (codes "UserName") (string user) end)))

  abbrev pub added_result : Text → Text → ProgressResult
  added_result group user =
      done_result create (membership_id group user) (some (membership_properties group user))

  unfoldable pub add_member : GroupClient W → Text → Text → Io W (Outcome ProgressResult)
  unfolding add_from confirm_from
  add_member client group user =
      add_from client group user p.add_attempts none (
        confirm_from client group user p.read_attempts
          (λ w. (succeed (added_result group user), w)))

  unfoldable membership_create : CreateRequest → Io W (Outcome ProgressResult)
  membership_create request =
      call p.group_client (in_context (codes "loading AWS config: ")) (λ client.
        decode_or p.codec (codes "parsing properties: ") request.properties (λ properties.
          unless_bad (get_string_property properties (codes "GroupName"))
            (in_context (codes "invalid GroupName: "))
            (λ group.
              unless_bad (get_string_property properties (codes "UserName"))
                (in_context (codes "invalid UserName: ")) (λ user. add_member client group user))))

  abbrev no_membership : ReadRequest → ReadResult
  no_membership request = record {
    resource_type = request.resource_type;
    properties = [];
    error_code = not_found;
  }

  abbrev pub membership_result : ReadRequest → Text → Text → Bool → ReadResult
  membership_result request group user present =
      if present
      then record {
        resource_type = request.resource_type;
        properties = membership_properties group user;
        error_code = no_code;
      }
      else no_membership request

  abbrev pub unread : ReadRequest → Text → GoError → Outcome ReadResult
  unread request group e =
      if e.is_missing
      then succeed (no_membership request)
      else in_context (codes "reading group " ++ (group ++ codes ": ")) e

  abbrev pub read_in : GroupClient W → ReadRequest → Text × Text → Io W (Outcome ReadResult)
  read_in client request (group, user) =
      call (group_contains_user client group user) (unread request group)
        (λ present w. (succeed (membership_result request group user present), w))

  unfoldable pub membership_read : ReadRequest → Io W (Outcome ReadResult)
  unfolding group_contains_user
  membership_read request =
      call p.group_client (in_context (codes "loading AWS config: "))
        (λ client. unless_bad (parse_membership_id request.native_id) fail (read_in client request))

  abbrev pub removed : DeleteRequest → ProgressResult
  removed request = done_result delete request.native_id none

  abbrev unremoved : DeleteRequest → Text → Text → GoError → Outcome ProgressResult
  unremoved request group user e =
      if e.is_missing
      then succeed (removed request)
      else in_context
          (codes "removing user " ++ (user ++ (codes " from group " ++ (group ++ codes ": ")))) e

  unfoldable membership_delete : DeleteRequest → Io W (Outcome ProgressResult)
  membership_delete request =
      call p.group_client (in_context (codes "loading AWS config: ")) (λ client.
        unless_bad (parse_membership_id request.native_id) fail (λ (group, user).
          attempt (client.remove_user group user) (unremoved request group user)
            (λ w. (succeed (removed request), w))))

  unfoldable membership_update : UpdateRequest → Io W (Outcome ProgressResult)
  membership_update request w = (
    fail (
        new_error (
          codes
            "update is not supported for AWS::IAM::UserToGroupAddition; a change is a replace (delete then create)")),
    w,
  )

  unfoldable membership_status : StatusRequest → Io W (Outcome ProgressResult)
  membership_status request w = (
    fail (new_error (codes "status check is not implemented for AWS::IAM::UserToGroupAddition")),
    w,
  )

  unfoldable membership_list : ListRequest → Io W (Outcome ListResult)
  membership_list request w = (succeed (record { native_ids = []; next_page_token = none }), w)
