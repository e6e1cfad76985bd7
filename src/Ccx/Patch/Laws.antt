-- ===== src/Ccx/Patch/Laws.antt =====
-- Patch documents after the two transformations.
use formae_plugin_aws.Prelude.{
  ◌&&◌, ◌≡◌, refl, true, false, Option, none, some, arith, if◌then◌else◌, Option-cases, Bool-cases,
  inl, inr, ap, ◌∙◌, subst, sym,
}
use formae_plugin_aws.Text.{Text, codes, ◌===◌}
use formae_plugin_aws.Text.Equality.{eq_refl}
use formae_plugin_aws.Json.{
  Json, Items, Fields, null, bool, number, string, array, object, nil, cons, end, field, get, put,
  as_object,
}
use formae_plugin_aws.Json.Laws.{get-put, get-put_self}
use formae_plugin_aws.Ccx.Strip.{strip_fields}
use formae_plugin_aws.Ccx.Strip.Clean.{CleanFields, strip_fields-IsClean, strip_fields_idem}
use formae_plugin_aws.Ccx.Patch.{
  strip_op, is_add_or_replace, is_phantom, is_empty_collection, filter_op, keep_op, filter_ops,
  is_secret_replace, secret_ops,
}

put-put : (k : Text) (u v : Json) (m : Fields) → put k v (put k u m) ≡ put k v m
unfolding put
put-put k u v end = ground (arith, eq_refl k)
put-put k u v (field j w m) = ground (arith, put-put k u v m, eq_refl k)

strip_op-none : (op : Fields) → as_object (get (codes "value") op) ≡ none → strip_op op ≡ op
unfolding strip_op
strip_op-none op e = rw (strip_op, e)

strip_op-some :
    (op m : Fields)
    → as_object (get (codes "value") op) ≡ some m
    → strip_op op ≡ put (codes "value") (object (strip_fields m)) op
unfolding strip_op
strip_op-some op m e = rw (strip_op, e)

strip_op_idem : (op : Fields) → strip_op (strip_op op) ≡ strip_op op
strip_op_idem op = elim (Option-cases (as_object (get (codes "value") op))) [
  | inl e ↦ rw (strip_op-none op e) (strip_op-none op e)
  | inr (m, e) ↦
      let v = object (strip_fields m) in
      rw (strip_op-some op m e) (
        strip_op-some (put (codes "value") v op) (strip_fields m)
          (ap as_object (get-put_self (codes "value") v op))
        ∙ put-put (codes "value") v (object (strip_fields (strip_fields m))) op
        ∙ ap (λ n. put (codes "value") (object n) op) (strip_fields_idem m))
]

filter_op_object :
    (op : Fields)
    → filter_op (object op)
      ≡ (if is_phantom (strip_op op) then none else some (object (strip_op op)))
unfolding filter_op
filter_op_object op = refl

filter_op-inversion :
    (op : Fields) (op' : Json)
    → filter_op (object op) ≡ some op'
    → (op' ≡ object (strip_op op)) × (is_phantom (strip_op op) ≡ false)
filter_op-inversion op op' h = ground (arith, filter_op_object op)

filter_op_idem : (op op' : Json) → filter_op op ≡ some op' → filter_op op' ≡ some op'
filter_op_idem (object op) op' h =
    let (e, real) = filter_op-inversion op op' h in
    rw (e, filter_op_object (strip_op op), strip_op_idem op, real)
filter_op_idem null op' h = unfold filter_op in cc
filter_op_idem (bool b) op' h = unfold filter_op in cc
filter_op_idem (number n) op' h = unfold filter_op in cc
filter_op_idem (string s) op' h = unfold filter_op in cc
filter_op_idem (array xs) op' h = unfold filter_op in cc

filter_ops-keep_op :
    (o : Option Json) (ops : Items)
    → ((op : Json) → o ≡ some op → filter_op op ≡ some op)
    → filter_ops (keep_op o ops) ≡ keep_op o (filter_ops ops)
unfolding filter_ops
filter_ops-keep_op none ops h = refl
filter_ops-keep_op (some op) ops h = rw (h op refl)

filter_ops-cons :
    (op : Json) (ops : Items) → filter_ops (cons op ops) ≡ keep_op (filter_op op) (filter_ops ops)
unfolding filter_ops
filter_ops-cons op ops = refl

-- Filtering a patch a second time changes nothing.
filter_ops_idem : (ops : Items) → filter_ops (filter_ops ops) ≡ filter_ops ops
filter_ops_idem nil = unfold filter_ops in refl
filter_ops_idem (cons op ops) = rw (
  filter_ops-cons op ops,
  filter_ops-keep_op _ (filter_ops ops) (filter_op_idem op),
  filter_ops_idem ops,
)

-- An operation that Cloud Control is sent: an add or replace has no empty array or map for its value,
-- and no key of a map that is a value holds one.
abbrev CleanObject : Option Json → Type 0
CleanObject (some (object m)) = CleanFields m
CleanObject _ = Unit

pub record RealOp (op : Fields) : Type 0 where
  pub not_empty : is_add_or_replace op && is_empty_collection (get (codes "value") op) ≡ false
  pub clean : CleanObject (get (codes "value") op)

abbrev pub RealOps : Items → Type 0
RealOps nil = Unit
RealOps (cons (object op) ops) = RealOp op × RealOps ops
RealOps (cons _ ops) = RealOps ops

value_of_strip_op :
    (op m : Fields) → get (codes "value") (strip_op op) ≡ some (object m) → CleanFields m
value_of_strip_op op m h = elim (Option-cases (as_object (get (codes "value") op))) [
  | inl e ↦ absurd (
      object-none _ m (subst (λ o. get (codes "value") o ≡ some (object m)) (strip_op-none op e) h)
        e)
  | inr (m', e) ↦
      subst CleanFields
        (object-injective _ _ (
          sym (get-put_self (codes "value") (object (strip_fields m')) op)
          ∙ ap (get (codes "value")) (sym (strip_op-some op m' e))
          ∙ h))
        (strip_fields-IsClean m')
]
  where
    object-none : (o : Option Json) (m : Fields) → o ≡ some (object m) → as_object o ≡ none → ⊥
    object-none o m e n = ground (arith, ap as_object e)

    object-injective : (a b : Fields) → some (object a) ≡ some (object b) → a ≡ b
    object-injective a b e = cc

CleanObject-of :
    (o : Option Json) → ((m : Fields) → o ≡ some (object m) → CleanFields m) → CleanObject o
CleanObject-of none h = tt
CleanObject-of (some (object m)) h = h m refl
CleanObject-of (some null) h = tt
CleanObject-of (some _) h = tt

RealOp-strip_op : (op : Fields) → is_phantom (strip_op op) ≡ false → RealOp (strip_op op)
unfolding is_phantom
RealOp-strip_op op real = record {
  not_empty = real;
  clean = CleanObject-of (get (codes "value") (strip_op op)) (value_of_strip_op op);
}

RealOps-keep_op : (op : Json) (ops : Items) → RealOps ops → RealOps (keep_op (filter_op op) ops)
RealOps-keep_op (object op) ops h = elim (Bool-cases (is_phantom (strip_op op))) [
  | inl phantom ↦ rw (filter_op_object op, phantom) h
  | inr real ↦ rw (filter_op_object op, real) (RealOp-strip_op op real, h)
]
RealOps-keep_op null ops h = unfold filter_op in h
RealOps-keep_op (bool b) ops h = unfold filter_op in h
RealOps-keep_op (number n) ops h = unfold filter_op in h
RealOps-keep_op (string s) ops h = unfold filter_op in h
RealOps-keep_op (array xs) ops h = unfold filter_op in h

-- After filtering, no add or replace has an empty array or map for its value, and no key of a map
-- that is the value of an operation holds one.
pub filter_ops-RealOps : (ops : Items) → RealOps (filter_ops ops)
filter_ops-RealOps nil = unfold filter_ops in tt
filter_ops-RealOps (cons op ops) =
    rw (filter_ops-cons op ops) (RealOps-keep_op op (filter_ops ops) (filter_ops-RealOps ops))

-- Each operation against its transformed one: the latter does not replace the secret string, and its
-- keys have what they had, but for the "op" of an operation that did.
abbrev SecretOps : Items → Items → Type 0
SecretOps nil nil = Unit
SecretOps (cons (object op) ops) (cons (object op') ops') =
    (is_secret_replace op' ≡ false)
    × ((k : Text)
        → get k op' ≡ (
            if is_secret_replace op && codes "op" === k
            then some (string (codes "add"))
            else get k op))
    × SecretOps ops ops'
SecretOps (cons op ops) (cons op' ops') = (op' ≡ op) × SecretOps ops ops'
SecretOps _ _ = ⊥

add_is_no_secret_replace :
    (op : Fields) → is_secret_replace (put (codes "op") (string (codes "add")) op) ≡ false
unfolding is_secret_replace ◌===◌
add_is_no_secret_replace op = rw (get-put_self (codes "op") (string (codes "add")) op)

secret_field :
    (op : Fields) (k : Text)
    → is_secret_replace op ≡ true
    → get k (put (codes "op") (string (codes "add")) op)
      ≡ (if is_secret_replace op && codes "op" === k then some (string (codes "add")) else get k op)
secret_field op k h = rw (h, get-put (codes "op") k (string (codes "add")) op)

plain_field :
    (op : Fields) (k : Text)
    → is_secret_replace op ≡ false
    → get k op
      ≡ (if is_secret_replace op && codes "op" === k then some (string (codes "add")) else get k op)
plain_field op k h = rw h refl

-- After the transformation no operation of a patch replaces the secret string; one that did adds it,
-- and nothing else of the patch has changed.
secret_ops_lem : (ops : Items) → SecretOps ops (secret_ops ops)
unfolding secret_ops
secret_ops_lem nil = tt
secret_ops_lem (cons (object op) ops) = elim (Bool-cases (is_secret_replace op)) [
  | inl secret ↦
      rw secret (add_is_no_secret_replace op, λ k. secret_field op k secret, secret_ops_lem ops)
  | inr other ↦ rw other (other, λ k. plain_field op k other, secret_ops_lem ops)
]
secret_ops_lem (cons null ops) = (refl, secret_ops_lem ops)
secret_ops_lem (cons (bool b) ops) = (refl, secret_ops_lem ops)
secret_ops_lem (cons (number n) ops) = (refl, secret_ops_lem ops)
secret_ops_lem (cons (string s) ops) = (refl, secret_ops_lem ops)
secret_ops_lem (cons (array xs) ops) = (refl, secret_ops_lem ops)
