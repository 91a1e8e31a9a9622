-- ===== src/Engine/Spec/Schema.antt =====
-- The schema of specs in the module comment of spec_loader.py.
use ss_prep.Base.{
  String, Bool, true, false, not, ◌&&◌, Option, none, some, ◌==◌, if◌then◌else◌, Value, null, str,
  list, dict, Items, nil, cons, Fields, end, field,
}
use ss_prep.Engine.Spec.Readers.{at}

-- Texts only.
unfoldable pub are_texts : Items → Bool
are_texts nil = true
are_texts (cons (str s) vs) = are_texts vs
are_texts (cons v vs) = false

unfoldable pub map_to_texts : Fields → Bool
map_to_texts end = true
map_to_texts (field k (str s) fs) = map_to_texts fs
map_to_texts (field k v fs) = false

unfoldable pub map_to_maps : Fields → Bool
unfolding map_to_texts
map_to_maps end = true
map_to_maps (field k (dict fs) rest) = map_to_texts fs && map_to_maps rest
map_to_maps (field k v rest) = false

-- A list of texts, a text that may be missing, and mappings.
unfoldable pub is_texts : Option Value → Bool
unfolding are_texts
is_texts (some (list vs)) = are_texts vs
is_texts v = false

unfoldable pub is_optional_text : Option Value → Bool
is_optional_text none = true
is_optional_text (some null) = true
is_optional_text (some (str s)) = true
is_optional_text v = false

unfoldable pub is_mapping : Option Value → Bool
unfolding map_to_texts
is_mapping (some (dict fs)) = map_to_texts fs
is_mapping v = false

unfoldable pub is_transitions : Option Value → Bool
unfolding map_to_maps
is_transitions (some (dict fs)) = map_to_maps fs
is_transitions v = false

-- The id of a class, and the arguments of its constructor.
unfoldable pub is_ref : Option Value → Bool
is_ref (some (str ref)) = not (ref == "")
is_ref v = false

unfoldable pub are_args : Option Value → Bool
are_args none = true
are_args (some (dict fs)) = true
are_args v = false

unfoldable pub is_policy : Option Value → Bool
is_policy (some (str policy)) = policy == "first_wins"
is_policy v = false

-- What a machine has beside its children.
unfoldable pub has_machine_fields : Fields → Bool
unfolding at is_texts is_optional_text is_transitions
has_machine_fields fs =
    is_texts (at fs "outcomes")
    && (is_optional_text (at fs "initial_state") && is_transitions (at fs "transitions"))

-- `children` and `regions` say whether these fields are there and follow the schema.
unfoldable pub follows_kind : String → Fields → Bool → Bool → Bool
unfolding at is_ref are_args is_policy is_texts has_machine_fields
follows_kind kind fs children regions =
    if kind == "State"
    then is_ref (at fs "ref") && are_args (at fs "args")
    else if kind == "StateMachine"
    then has_machine_fields fs && children
    else if kind == "BehaviorSM"
    then has_machine_fields fs && (children && is_texts (at fs "behavior_parameters"))
    else if kind == "Parallel"
    then is_policy (at fs "policy") && regions
    else false

-- Whether a value is a spec by the schema: each kind with its fields, all the way down.
unfoldable mutual
  unfolding at is_mapping follows_kind

  pub follows : Value → Bool
  follows (dict fs) = elim (at fs "kind") [
    | some (str kind) ↦ follows_kind kind fs (children_follow fs) (regions_follow fs)
    | _ ↦ false
  ]
  follows v = false

  pub children_follow : Fields → Bool
  children_follow end = false
  children_follow (field k v fs) = elim (k == "children") [
    | true ↦ each_follows v
    | false ↦ children_follow fs
  ]

  pub each_follows : Value → Bool
  each_follows (dict fs) = all_follow fs
  each_follows v = false

  pub all_follow : Fields → Bool
  all_follow end = true
  all_follow (field name v fs) = follows v && all_follow fs

  pub regions_follow : Fields → Bool
  regions_follow end = false
  regions_follow (field k v fs) = elim (k == "regions") [
    | true ↦ some_regions v
    | false ↦ regions_follow fs
  ]

  -- A `Parallel` has at least one region.
  pub some_regions : Value → Bool
  some_regions (dict (field name v fs)) = region_follows v && each_region_follows fs
  some_regions v = false

  pub each_region_follows : Fields → Bool
  each_region_follows end = true
  each_region_follows (field name v fs) = region_follows v && each_region_follows fs

  pub region_follows : Value → Bool
  region_follows (dict fs) = state_follows fs && is_mapping (at fs "outcomes")
  region_follows v = false

  pub state_follows : Fields → Bool
  state_follows end = false
  state_follows (field k v fs) = elim (k == "state") [ true ↦ follows v | false ↦ state_follows fs ]
