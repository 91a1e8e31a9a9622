-- ===== src/Engine/Spec/RoundTrip.antt =====
-- What becomes of a state that is written as a spec and built again.
use ss_prep.Base.{
  String, ◌≡◌, refl, ◌∙◌, Bool, false, Option, none, some, List, [], ◌∷◌, arith, is_empty, Dict,
  IsDict, Fields, truthy,
}
use ss_prep.Engine.Registry.{Class}
use ss_prep.Engine.Machine.{Machine}
use ss_prep.Engine.Machine
use ss_prep.Engine.Parallel.{Parallel, Region, targets}
use ss_prep.Engine.Parallel
use ss_prep.Engine.Tree.{
  State, leaf, machine, retry, parallel, Children, childless, child, Regions, regionless, region,
  Shape, Leaf, outcomes_of, behave, behave_children, behave_regions,
}
use ss_prep.Engine.Spec.Readers.{built, at, given, read_initial, named_kind, kind_of}
use ss_prep.Engine.Spec.Write.{
  to_spec, children_spec, regions_spec, state_spec, machine_spec, parallel_spec, initial_of,
}
use ss_prep.Engine.Spec.Build.{
  build_state, build_machine, build_behavior, build_parallel, build_from_spec, children_in,
  regions_in, tree_machine, tree_parallel, make_parallel,
}
use ss_prep.Engine.Spec.Dictionaries.{
  read_texts-items_of, read_texts-nil, read_mapping-mapping_of, AllFound-self,
}
use ss_prep.Engine.Spec.Attach.{SameKeys, results, attach_children-results, collect_regions-results}
use ss_prep.Engine.Spec.Rebuildable.{
  children_dict, regions_dict, plain, plain_children, plain_regions, IsConstructed, IsRebuildable,
  AllRebuildable, AllRegionsRebuildable, tree_children-children_dict, tree_regions-regions_dict,
  IsDict-plain_children, IsDict-plain_regions, SameKeys-plain_children, IsConstructed-plain_regions,
}

module _ (classes : Dict (Class State)) (with_node : Bool) where
  build_state-state_spec :
      (l : Leaf)
      → IsRebuildable classes with_node (leaf l)
      → build_state classes with_node (state_spec l.class_name l.outcomes) ≡ built (leaf l)
  unfolding IsRebuildable build_state state_spec at truthy
  build_state-state_spec l (k, named, known, is_state, constructed) =
      rw (named, build_state) (rw (known) (rw (is_state) (rw (constructed) refl)))

  build_machine-machine_spec :
      (class_name : String) (ps : Option (List String)) (s : Shape) (specs : Fields)
      (ds : Dict State) (i : String)
      → s.initial ≡ some i
      → is_empty s.outcomes ≡ false
      → SameKeys ds s.transitions
      → IsDict ds
      → IsDict s.transitions
      → build_machine classes with_node class_name ps (machine_spec s specs) (built (results ds))
        ≡ built (
            tree_machine class_name ps (record {
              outcomes = s.outcomes;
              initial = s.initial;
              children = ds;
              transitions = s.transitions;
            }))
  unfolding build_machine machine_spec at given Machine.new initial_of read_initial
  build_machine-machine_spec class_name ps s specs ds i starts some_outcome same names routed =
      let m : Machine State = Machine.new (some s.outcomes) (some i) in
      let attached =
        attach_children-results classes with_node s.transitions ds s.transitions m i refl same
          (AllFound-self s.transitions routed) names routed in
      rw starts (
        rw (read_texts-items_of ("done" ∷ "failed" ∷ []) s.outcomes some_outcome)
          (rw attached refl))

  -- A machine, once its children are known to be rebuilt.
  machine_rebuilt :
      (s : Shape) (cs : Children)
      → IsRebuildable classes with_node (machine s cs)
      → children_in classes with_node (children_spec cs)
        ≡ results (children_dict (plain_children cs))
      → (ps : Option (List String)) → s.behavior_parameters ≡ ps
      → build_from_spec classes with_node (to_spec (machine s cs)) ≡ built (plain (machine s cs))
  unfolding IsRebuildable build_from_spec build_behavior to_spec plain at given tree_machine
      named_kind
  machine_rebuilt s cs (i, starts, some_outcome, same, names, routed, below) children none e =
      let ds = children_dict (plain_children cs) in
      rw e (
        rw children (
          build_machine-machine_spec "StateMachine" none s (children_spec cs) ds i starts
            some_outcome (SameKeys-plain_children cs s.transitions same)
            (IsDict-plain_children cs names) routed
          ∙ rw (tree_children-children_dict (plain_children cs)) refl))
  machine_rebuilt s cs (i, starts, some_outcome, same, names, routed, below) children (some ps) e =
      let ds = children_dict (plain_children cs) in
      rw e (
        rw (read_texts-nil ps) (
          rw children (
            build_machine-machine_spec "BehaviorSM" (some ps) s (children_spec cs) ds i starts
              some_outcome (SameKeys-plain_children cs s.transitions same)
              (IsDict-plain_children cs names) routed
            ∙ rw (tree_children-children_dict (plain_children cs)) refl)))

  build_parallel-parallel_spec :
      (policy : String) (os : List String) (specs : Fields) (ds : Dict (Region State))
      → IsConstructed policy os ds
      → IsDict ds
      → build_parallel classes with_node (parallel_spec policy os specs) (built (results ds))
        ≡ built (tree_parallel (record { regions = ds; policy = policy; outcomes = os }))
  unfolding build_parallel parallel_spec at make_parallel Parallel.new results
  build_parallel-parallel_spec policy os specs [] constructed names = ground arith
  build_parallel-parallel_spec policy os specs (d ∷ ds) constructed names =
      rw (collect_regions-results (d ∷ ds) [] names) (rw constructed refl)

  parallel_rebuilt :
      (policy : String) (os : List String) (rs : Regions)
      → IsRebuildable classes with_node (parallel policy os rs)
      → regions_in classes with_node (regions_spec rs) ≡ results (regions_dict (plain_regions rs))
      → build_from_spec classes with_node (to_spec (parallel policy os rs))
        ≡ built (plain (parallel policy os rs))
  unfolding IsRebuildable build_from_spec to_spec plain at named_kind tree_parallel
  parallel_rebuilt policy os rs (constructed, names, below) regions = rw regions (
      build_parallel-parallel_spec policy os (regions_spec rs) (regions_dict (plain_regions rs))
        (IsConstructed-plain_regions policy os rs constructed) (IsDict-plain_regions rs names)
      ∙ rw (tree_regions-regions_dict (plain_regions rs)) refl)

  mutual
    unfolding IsRebuildable build_from_spec to_spec plain results children_dict regions_dict at
        given named_kind kind_of

    pub build-to_spec :
        (s : State)
        → IsRebuildable classes with_node s
        → build_from_spec classes with_node (to_spec s) ≡ built (plain s)
    build-to_spec (leaf l) h = build_state-state_spec l h
    build-to_spec (machine s cs) h =
        machine_rebuilt s cs h (children_rebuilt cs h.6) s.behavior_parameters refl
    build-to_spec (retry n o s) h = absurd h
    build-to_spec (parallel policy os rs) h =
        parallel_rebuilt policy os rs h (regions_rebuilt rs h.2)

    children_rebuilt :
        (cs : Children)
        → AllRebuildable classes with_node cs
        → children_in classes with_node (children_spec cs)
          ≡ results (children_dict (plain_children cs))
    children_rebuilt childless h = refl
    children_rebuilt (child name s cs) h =
        rw (build-to_spec s h.0) (rw (children_rebuilt cs h.1) refl)

    regions_rebuilt :
        (rs : Regions)
        → AllRegionsRebuildable classes with_node rs
        → regions_in classes with_node (regions_spec rs) ≡ results (regions_dict (plain_regions rs))
    regions_rebuilt regionless h = refl
    regions_rebuilt (region name s outcomes rs) h =
        rw (build-to_spec s h.0)
          (rw (read_mapping-mapping_of outcomes) (rw (regions_rebuilt rs h.1) refl))

outcomes_of-plain : (s : State) → outcomes_of (plain s) ≡ outcomes_of s
unfolding plain outcomes_of
outcomes_of-plain (leaf l) = refl
outcomes_of-plain (machine s cs) = refl
outcomes_of-plain (retry n o s) = outcomes_of-plain s
outcomes_of-plain (parallel policy os rs) = refl

mutual
  unfolding plain behave

  behave-plain : (s : State) → behave (plain s) ≡ behave s
  behave-plain (leaf l) = refl
  behave-plain (machine s cs) = rw (behave_children-plain cs) refl
  behave-plain (retry n o s) = rw (outcomes_of-plain s, behave-plain s) refl
  behave-plain (parallel policy os rs) = rw (behave_regions-plain rs) refl

  pub behave_children-plain :
      (cs : Children) → behave_children (plain_children cs) ≡ behave_children cs
  behave_children-plain childless = refl
  behave_children-plain (child name s cs) = rw (behave-plain s, behave_children-plain cs) refl

  behave_regions-plain : (rs : Regions) → behave_regions (plain_regions rs) ≡ behave_regions rs
  behave_regions-plain regionless = refl
  behave_regions-plain (region name s outcomes rs) =
      rw (behave-plain s, behave_regions-plain rs) refl
