-- ===== src/Engine/Userdata/Access.antt =====
-- The two ways to reach a key.
use text.Mathlib.Text.{starts_with}
use ss_prep.Base.{
  ◌≡◌, String, false, ◌==◌, if◌then◌else◌, contains, lookup-insert, eq_refl, arith, Value, ok, Dict,
  IsDict, lookup-update, has_key,
}
use ss_prep.Engine.Userdata.{
  Userdata, get_item, method_names, method, value, read_attribute, set_attr, get_or_default,
  update_from, mapping,
}

-- After `u.key = v`, for a key without an underscore in front: `u[key]` is `v`, so is `u.key` unless the
-- key is the name of a method, which is found instead; and every other key is as before, in both ways.
pub read_attribute-set_attr :
    (key : String) (v : Value) (u : Userdata)
    → starts_with key "_" ≡ false
    → (get_item key (set_attr key v u) ≡ ok v)
      × (read_attribute key (set_attr key v u)
          ≡ (if contains method_names key then ok (method key) else ok (value v)))
      × ((other : String)
          → (key == other) ≡ false
          → (get_item other (set_attr key v u) ≡ get_item other u)
            × (read_attribute other (set_attr key v u) ≡ read_attribute other u))
unfolding get_item set_attr read_attribute
read_attribute-set_attr key v u public = (
  ground (arith, lookup-insert key key v u.items, eq_refl key),
  ground (arith, lookup-insert key key v u.items, eq_refl key),
  λ other apart. (
    ground (arith, lookup-insert key other v u.items),
    ground (arith, lookup-insert key other v u.items),
  ),
)

-- After `u.update(other)` for a dictionary, `u.get(key, default)` is the value in `other`, if it has the
-- key, and else what it was before.
pub get_or_default-update_from :
    (other : Dict Value) (u : Userdata) (key : String) (default : Value)
    → IsDict other
    → get_or_default key default (update_from (mapping other) u) ≡ (
        if has_key other key
        then get_or_default key default (record { items = other })
        else get_or_default key default u)
unfolding get_or_default update_from
get_or_default-update_from other u key default distinct =
    ground (arith, lookup-update u.items other key distinct)
