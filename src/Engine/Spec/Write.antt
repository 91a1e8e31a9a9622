-- ===== src/Engine/Spec/Write.antt =====
-- `to_spec` of the classes.
use ss_prep.Base.{
  String, Option, none, some, List, [], ◌∷◌, Dict, Value, null, str, list, dict, Items, nil, cons,
  Fields, end, field,
}
use ss_prep.Engine.Tree.{
  State, leaf, machine, retry, parallel, Children, childless, child, Regions, regionless, region,
  Shape, outcomes_of,
}

unfoldable pub items_of : List String → Items
items_of [] = nil
items_of (s ∷ ss) = cons (str s) (items_of ss)

unfoldable pub mapping_of : Dict String → Fields
mapping_of [] = end
mapping_of ((k, s) ∷ d) = field k (str s) (mapping_of d)

-- `transitions()`.
unfoldable pub transitions_of : Dict (Dict String) → Fields
unfolding mapping_of
transitions_of [] = end
transitions_of ((k, t) ∷ ts) = field k (dict (mapping_of t)) (transitions_of ts)

unfoldable pub initial_of : Option String → Value
initial_of none = null
initial_of (some s) = str s

-- `State.to_spec`.
unfoldable pub state_spec : String → List String → Fields
unfolding items_of
state_spec class_name outcomes =
    field "kind" (str "State")
      (field "ref" (str class_name) (field "outcomes" (list (items_of outcomes)) end))

-- The kind of a machine, and the field that `BehaviorSM` adds at the end.
unfoldable pub machine_kind_name : Option (List String) → String
machine_kind_name none = "StateMachine"
machine_kind_name (some ps) = "BehaviorSM"

unfoldable pub parameters_field : Option (List String) → Fields
unfolding items_of
parameters_field none = end
parameters_field (some ps) = field "behavior_parameters" (list (items_of ps)) end

-- `StateMachine.to_spec` and `BehaviorSM.to_spec`, over the specs of the children.
unfoldable pub machine_spec : Shape → Fields → Fields
unfolding machine_kind_name items_of initial_of transitions_of parameters_field
machine_spec s children = field "kind" (str (machine_kind_name s.behavior_parameters)) (
    field "id" (str s.class_name) (
      field "outcomes" (list (items_of s.outcomes)) (
        field "initial_state" (initial_of s.initial) (
          field "children" (dict children) (
            field "transitions" (dict (transitions_of s.transitions))
              (parameters_field s.behavior_parameters))))))

-- `Parallel.to_spec`, over the specs of the regions.
unfoldable pub parallel_spec : String → List String → Fields → Fields
unfolding items_of
parallel_spec policy outcomes regions = field "kind" (str "Parallel") (
    field "policy" (str policy)
      (field "outcomes" (list (items_of outcomes)) (field "regions" (dict regions) end)))

-- `RetryDecorator` has no `to_spec` of its own.
unfoldable mutual
  unfolding state_spec machine_spec parallel_spec mapping_of outcomes_of

  pub to_spec : State → Value
  to_spec (leaf l) = dict (state_spec l.class_name l.outcomes)
  to_spec (machine s cs) = dict (machine_spec s (children_spec cs))
  to_spec (retry n o s) = dict (state_spec "RetryDecorator" (outcomes_of s))
  to_spec (parallel policy outcomes rs) = dict (parallel_spec policy outcomes (regions_spec rs))

  pub children_spec : Children → Fields
  children_spec childless = end
  children_spec (child name s cs) = field name (to_spec s) (children_spec cs)

  pub regions_spec : Regions → Fields
  regions_spec regionless = end
  regions_spec (region name s outcomes rs) =
      field name
        (dict (field "state" (to_spec s) (field "outcomes" (dict (mapping_of outcomes)) end)))
        (regions_spec rs)
