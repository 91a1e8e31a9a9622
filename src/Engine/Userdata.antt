-- ===== src/Engine/Userdata.antt =====
-- mw_hfsm_engine/mw_hfsm_engine/userdata.py: the container that states read and write.
pub mod Access
use text.Mathlib.Text.{starts_with}
use ss_prep.Base.{
  String, Bool, true, false, Option, none, some, List, [], ◌∷◌, ◌==◌, if◌then◌else◌, contains,
  has_key, Dict, lookup, insert, update, keys, Value, Result, ok, raise, key_error, attribute_error,
}

-- `_data`.
pub record Userdata : Type 0 where
  pub items : Dict Value

unfoldable pub new : Option (Dict Value) → Userdata
new none = record { items = [] }
new (some initial) = record { items = initial }

unfoldable pub get_item : String → Userdata → Result Value
get_item key u = elim (lookup u.items key) [ none ↦ raise key_error | some v ↦ ok v ]

unfoldable pub set_item : String → Value → Userdata → Userdata
set_item key v u = record u { items = insert key v u.items }

unfoldable pub contains_key : String → Userdata → Bool
contains_key key u = has_key u.items key

-- The names that Python finds on the class, before it asks `__getattr__`.
abbrev pub method_names : List String
method_names = "get" ∷ "update" ∷ "keys" ∷ "to_dict" ∷ []

-- What reading an attribute gives.
pub data Attribute : Type 0 where
  method : String → Attribute
  value : Value → Attribute

-- `__getattr__`.
unfoldable pub get_attr : String → Userdata → Result Value
get_attr key u =
    if starts_with key "_"
    then raise attribute_error
    else elim (lookup u.items key) [ none ↦ raise attribute_error | some v ↦ ok v ]

-- `u.key`, for a name that starts with no underscore or that the object does not have.
unfoldable pub read_attribute : String → Userdata → Result Attribute
unfolding get_attr
read_attribute key u =
    if contains method_names key
    then ok (method key)
    else elim (get_attr key u) [ raise e ↦ raise e | ok v ↦ ok (value v) ]

-- `__setattr__`. A name with an underscore in front becomes an attribute of the object itself, not a
-- key; `_data` is assigned in the constructor only.
unfoldable pub set_attr : String → Value → Userdata → Userdata
set_attr key v u = if starts_with key "_" then u else record u { items = insert key v u.items }

unfoldable pub get_or_default : String → Value → Userdata → Value
get_or_default key default u = elim (lookup u.items key) [ none ↦ default | some v ↦ v ]

-- What `update` takes.
pub data Other : Type 0 where
  userdata : Userdata → Other
  mapping : Dict Value → Other

unfoldable pub update_from : Other → Userdata → Userdata
update_from (userdata other) u = record u { items = update u.items other.items }
update_from (mapping other) u = record u { items = update u.items other }

unfoldable pub key_list : Userdata → List String
key_list u = keys u.items

unfoldable pub as_mapping : Userdata → Dict Value
as_mapping u = u.items
