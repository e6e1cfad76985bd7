-- ===== src/Examples/Members.antt =====
-- A user that is added to a group, and a group of two pages. The world is whether the user was added.
use formae_plugin_aws.Prelude.{◌≡◌, refl, arith, Bool, true, false, Option, none, some, [], ◌∷◌}
use formae_plugin_aws.Text.{Text, codes, ◌===◌, cut}
use formae_plugin_aws.Go.{new_error, no_output, succeed}
use formae_plugin_aws.Sdk.{ReadRequest}
use formae_plugin_aws.Json.{null}
use formae_plugin_aws.CodeBuild.Ids.{split_n}
use formae_plugin_aws.Iam.Membership.{
  GroupPage, GroupClient, Membership, has_user, parse_membership_id, membership_result,
  membership_read, add_member,
}
use formae_plugin_aws.Iam.Membership.Laws.{MemberStore, Joined, add_member-Joined}
use formae_plugin_aws.Iam.Membership.Listing.{membership_read-Pages}

abbrev first_page : GroupPage
first_page = record {
  user_names = some (codes "x") ∷ [];
  is_truncated = true;
  marker = some (codes "m");
}

abbrev last_page : GroupPage
last_page = record { user_names = some (codes "u") ∷ []; is_truncated = false; marker = none }

abbrev page_at : Option Text → GroupPage
page_at none = first_page
page_at (some m) = last_page

abbrev a_group : GroupClient Bool
a_group = record {
  get_group = λ g m w. (succeed (page_at m), w);
  add_user = λ g u w. (succeed no_output, true);
  remove_user = λ g u w. (succeed no_output, false);
}

abbrev a_membership : Membership Bool
a_membership = record {
  group_client = λ w. (succeed a_group, w);
  add_attempts = 5;
  read_attempts = 10;
  pause = λ w. w;
  codec = record {
    unmarshal = λ _. some null;
    marshal = λ _. codes "{}";
    error_of = λ _. new_error (codes "bad");
  };
  quote = λ t. t;
  pages = 100;
}

abbrev is_added : Bool → Text → Text → Bool
is_added w g u = w

a_group-MemberStore : MemberStore a_membership a_group is_added
a_group-MemberStore = record {
  adds = λ g u w out e. refl;
  gets = λ g u m w. refl;
  waits = λ g u w. refl;
}

add_member-Joined_example :
    Joined is_added
      (codes "g")
      (codes "u")
      (add_member a_membership a_group (codes "g") (codes "u") false)
add_member-Joined_example =
    add_member-Joined a_membership a_group is_added (codes "g") (codes "u") 4 false
      a_group-MemberStore refl

abbrev a_member_read : ReadRequest
a_member_read = record {
  resource_type = codes "AWS::IAM::UserToGroupAddition";
  native_id = codes "g|u";
  target_config = none;
}

membership_read-Pages_example :
    membership_read a_membership a_member_read false
    ≡ (succeed (membership_result a_membership a_member_read (codes "g") (codes "u") true), false)
unfolding parse_membership_id split_n cut ◌===◌ has_user
membership_read-Pages_example =
    membership_read-Pages a_membership a_group a_member_read (codes "g") (codes "u") first_page
      (last_page ∷ []) false false refl refl
      ((λ w. refl), (refl, (codes "m", (refl, ((λ w. refl), refl))))) (omega arith)
