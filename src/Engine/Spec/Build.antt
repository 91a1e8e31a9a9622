-- ===== src/Engine/Spec/Build.antt =====
-- spec_loader.py: `build_from_spec`.
use ss_prep.Base.{
  String, Bool, true, false, Option, none, some, List, [], ◌∷◌, ◌==◌, if◌then◌else◌, Dict, lookup,
  insert, Value, str, dict, Fields, end, field, truthy, hfsm_error, registry_error, type_error,
  Result, ok, raise,
}
use ss_prep.Engine.Registry.{Class}
use ss_prep.Engine.Machine.{Machine, instance_of, add}
use ss_prep.Engine.Machine
use ss_prep.Engine.Parallel.{Parallel, Region}
use ss_prep.Engine.Parallel
use ss_prep.Engine.Tree.{
  State, machine, parallel, Children, childless, child, Regions, regionless, region,
}
use ss_prep.Engine.Spec.Readers.{
  Loaded, built, raised, off_schema, then_load, of_result, at, given, read_texts, read_mapping,
  read_args, read_initial, read_route, kind_of, state_kind, machine_kind, behavior_kind,
  parallel_kind, unknown_kind,
}

abbrev pub default_outcomes : List String
default_outcomes = "done" ∷ "failed" ∷ []

-- The dictionary of a machine's children as a part of the tree, and that of a Parallel's regions.
unfoldable pub tree_children : Dict State → Children
tree_children [] = childless
tree_children ((name, s) ∷ d) = child name s (tree_children d)

unfoldable pub tree_regions : Dict (Region State) → Regions
tree_regions [] = regionless
tree_regions ((name, r) ∷ d) = region name r.state r.outcomes (tree_regions d)

-- A machine of the class `StateMachine` or `BehaviorSM` itself.
unfoldable pub tree_machine : String → Option (List String) → Machine State → State
unfolding tree_children
tree_machine class_name parameters m =
    machine
      (record {
        class_name = class_name;
        behavior_parameters = parameters;
        outcomes = m.outcomes;
        initial = m.initial;
        transitions = m.transitions;
      })
      (tree_children m.children)

unfoldable pub tree_parallel : Parallel State → State
unfolding tree_regions
tree_parallel p = parallel p.policy p.outcomes (tree_regions p.regions)

-- `Parallel(regions=regions, policy=policy)`; a policy that is no text is not supported either.
unfoldable pub make_parallel : Option Value → Dict (Region State) → Loaded State
unfolding Parallel.new tree_parallel
make_parallel none regions =
    then_load (of_result (Parallel.new regions "first_wins")) (λ p. built (tree_parallel p))
make_parallel (some (str policy)) regions =
    then_load (of_result (Parallel.new regions policy)) (λ p. built (tree_parallel p))
make_parallel (some v) regions = raised hfsm_error

-- The loop over the regions.
unfoldable pub collect_regions :
    Dict (Loaded (Region State)) → Dict (Region State) → Loaded (Dict (Region State))
collect_regions [] acc = built acc
collect_regions ((name, r) ∷ rs) acc =
    then_load r (λ loaded. collect_regions rs (insert name loaded acc))

-- `classes` is the registry, and `with_node` says whether a node is passed on.
module _ (classes : Dict (Class State)) (with_node : Bool) where
  unfoldable pub construct : Class State → Dict Value → Result State
  construct k kwargs = elim (k.construct with_node kwargs) [
    | ok s ↦ ok s
    | raise type_error ↦ k.construct false kwargs
    | raise e ↦ raise e
  ]

  unfoldable pub build_state : Fields → Loaded State
  unfolding given read_args construct
  build_state fs = elim (given fs "ref") [
    | none ↦ raised hfsm_error
    | some (str ref) ↦ elim (lookup classes ref) [
      | none ↦ raised registry_error
      | some k ↦
          if k.is_state
          then then_load (read_args (given fs "args")) (λ kwargs. of_result (construct k kwargs))
          else raised hfsm_error
    ]
    | some v ↦ off_schema
  ]

  -- `_attach_children`, over the children as the loop builds them.
  unfoldable pub attach_children :
      Option Value → Dict (Loaded State) → Machine State → Loaded (Machine State)
  unfolding read_route add
  attach_children transitions [] m = built m
  attach_children transitions ((name, s) ∷ cs) m = then_load s (λ c.
      then_load (read_route transitions name) (λ t.
        then_load (of_result (add classes name (instance_of c) (some t) m))
          (attach_children transitions cs)))

  -- `_build_state_machine` and `_build_behavior_sm`.
  unfoldable pub build_machine :
      String → Option (List String) → Fields → Loaded (Dict (Loaded State)) → Loaded State
  unfolding given read_texts read_initial attach_children Machine.new tree_machine
  build_machine class_name parameters fs children =
      then_load (read_texts default_outcomes (given fs "outcomes")) (λ outcomes.
        then_load (read_initial (at fs "initial_state")) (λ initial. then_load children (λ cs.
          then_load
            (attach_children (given fs "transitions") cs (Machine.new (some outcomes) initial))
            (λ m. built (tree_machine class_name parameters m)))))

  unfoldable pub build_behavior : Fields → Loaded (Dict (Loaded State)) → Loaded State
  unfolding given read_texts build_machine
  build_behavior fs children =
      then_load (read_texts [] (given fs "behavior_parameters"))
        (λ ps. build_machine "BehaviorSM" (some ps) fs children)

  -- `_build_parallel`, over the regions as the loop builds them.
  unfoldable pub build_parallel : Fields → Loaded (Dict (Loaded (Region State))) → Loaded State
  unfolding at collect_regions make_parallel
  build_parallel fs regions = then_load regions (elim [
    | [] ↦ raised hfsm_error
    | r ∷ rs ↦ then_load (collect_regions (r ∷ rs) []) (make_parallel (at fs "policy"))
  ])

  -- The recursion goes through the fields, to the value of the key that it looks for.
  unfoldable mutual
    unfolding at given read_mapping kind_of build_state build_machine build_behavior build_parallel

    pub build_from_spec : Value → Loaded State
    build_from_spec (dict fs) = elim (kind_of (at fs "kind")) [
      | state_kind ↦ build_state fs
      | machine_kind ↦ build_machine "StateMachine" none fs (children_at fs)
      | behavior_kind ↦ build_behavior fs (children_at fs)
      | parallel_kind ↦ build_parallel fs (regions_at fs)
      | unknown_kind ↦ raised hfsm_error
    ]
    build_from_spec v = raised hfsm_error

    -- `spec.get('children') or {}`, each with its built state.
    pub children_at : Fields → Loaded (Dict (Loaded State))
    children_at end = built []
    children_at (field k v fs) = elim (k == "children") [
      | true ↦ each_child v
      | false ↦ children_at fs
    ]

    pub each_child : Value → Loaded (Dict (Loaded State))
    each_child (dict fs) = built (children_in fs)
    each_child v = if truthy v then off_schema else built []

    pub children_in : Fields → Dict (Loaded State)
    children_in end = []
    children_in (field name v fs) = (name, build_from_spec v) ∷ children_in fs

    pub regions_at : Fields → Loaded (Dict (Loaded (Region State)))
    regions_at end = built []
    regions_at (field k v fs) = elim (k == "regions") [
      | true ↦ each_region v
      | false ↦ regions_at fs
    ]

    pub each_region : Value → Loaded (Dict (Loaded (Region State)))
    each_region (dict fs) = built (regions_in fs)
    each_region v = if truthy v then off_schema else built []

    pub regions_in : Fields → Dict (Loaded (Region State))
    regions_in end = []
    regions_in (field name v fs) = (name, region_of v) ∷ regions_in fs

    pub region_of : Value → Loaded (Region State)
    region_of (dict fs) = then_load (state_at fs) (λ s.
        then_load (read_mapping (given fs "outcomes"))
          (λ outcomes. built (record { state = s; outcomes = outcomes })))
    region_of v = off_schema

    -- `build_from_spec(r_spec['state'], node)`, or the error for a missing `state`.
    pub state_at : Fields → Loaded State
    state_at end = raised hfsm_error
    state_at (field k v fs) = elim (k == "state") [ true ↦ build_from_spec v | false ↦ state_at fs ]
