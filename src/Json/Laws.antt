-- ===== src/Json/Laws.antt =====
-- Go maps: reading after a write or a deletion.
use formae_plugin_aws.Prelude.{◌≡◌, refl, none, some, arith, if◌then◌else◌}
use formae_plugin_aws.Text.{Text, ◌===◌}
use formae_plugin_aws.Text.Equality.{eq_iff, eq_refl}
use formae_plugin_aws.Json.{Json, Fields, end, field, get, remove, put}

pub get-put :
    (k j : Text) (v : Json) (m : Fields) → get j (put k v m) ≡ (if k === j then some v else get j m)
unfolding get put
get-put k j v end = refl
get-put k j v (field i u m) = ground (arith, get-put k j v m, eq_iff k j, eq_iff i k, eq_iff i j)

pub get-remove :
    (k j : Text) (m : Fields) → get j (remove k m) ≡ (if k === j then none else get j m)
unfolding get remove
get-remove k j end = ground arith
get-remove k j (field i u m) = ground (arith, get-remove k j m, eq_iff k j, eq_iff i k, eq_iff i j)

pub get-field :
    (k j : Text) (v : Json) (m : Fields)
    → get k (field j v m) ≡ (if j === k then some v else get k m)
unfolding get
get-field k j v m = refl

pub get-put_self : (k : Text) (v : Json) (m : Fields) → get k (put k v m) ≡ some v
get-put_self k v m = ground (arith, get-put k k v m, eq_refl k)
