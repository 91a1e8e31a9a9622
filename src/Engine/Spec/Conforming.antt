-- ===== src/Engine/Spec/Conforming.antt =====
-- The loader on the specs that `to_spec` writes.
use ss_prep.Base.{
  ◌≡◌, refl, String, Bool, Bool-cases, Option-cases, inl, inr, Option, none, some, List, [], ◌∷◌,
  ◌==◌, Dict, lookup, insert, dict, list, truthy, Fields, Result, ok, raise,
}
use ss_prep.Engine.Registry.{Class}
use ss_prep.Engine.Machine.{Machine, instance_of, add}
use ss_prep.Engine.Machine
use ss_prep.Engine.Parallel.{Parallel, Region}
use ss_prep.Engine.Parallel
use ss_prep.Engine.Tree.{
  State, leaf, machine, retry, parallel, Children, childless, child, Regions, regionless, region,
  Shape, outcomes_of,
}
use ss_prep.Engine.Spec.Readers.{
  Loaded, built, raised, off_schema, then_load, of_result, if_truthy, at, given, read_texts,
  read_initial, read_mapping, read_route, read_args, named_kind, kind_of,
}
use ss_prep.Engine.Spec.Write.{
  items_of, mapping_of, transitions_of, initial_of, to_spec, children_spec, regions_spec,
  state_spec, machine_spec, parallel_spec,
}
use ss_prep.Engine.Spec.Build.{
  construct, build_state, attach_children, build_machine, build_behavior, build_parallel,
  collect_regions, make_parallel, build_from_spec, children_in, regions_in,
}
use ss_prep.Engine.Spec.Dictionaries.{texts-items_of, read_texts-nil, read_mapping-mapping_of}

-- The loader builds something or raises: nothing in the spec has a type that the schema does not allow.
unfoldable pub Conforms : {A : Type 0} → Loaded A → Type 0
Conforms (built a) = Unit
Conforms (raised e) = Unit
Conforms off_schema = ⊥

AllConform : {A : Type 0} → Dict (Loaded A) → Type 0
AllConform [] = Unit
AllConform ((k, r) ∷ d) = Conforms r × AllConform d

then_load-Conforms :
    {A B : Type 0} (r : Loaded A) (f : A → Loaded B)
    → Conforms r
    → ((a : A) → Conforms (f a))
    → Conforms (then_load r f)
unfolding Conforms
then_load-Conforms (built a) f h g = g a
then_load-Conforms (raised e) f h g = tt
then_load-Conforms off_schema f h g = absurd h

of_result-Conforms : {A : Type 0} (r : Result A) → Conforms (of_result r)
unfolding Conforms
of_result-Conforms (ok a) = tt
of_result-Conforms (raise e) = tt

read_texts-Conforms :
    (default ss : List String) → Conforms (read_texts default (if_truthy (list (items_of ss))))
unfolding Conforms read_texts items_of truthy
read_texts-Conforms default [] = tt
read_texts-Conforms default (s ∷ ss) = rw (texts-items_of ss) tt

at_transitions_of_cases :
    (ts : Dict (Dict String)) (name : String)
    → Conforms (read_mapping (given (transitions_of ts) name))
unfolding Conforms given at transitions_of read_mapping
at_transitions_of_cases [] name = tt
at_transitions_of_cases ((k, t) ∷ ts) name = elim (Bool-cases (k == name)) [
  | inl same ↦ rw (same, given, at) (rw (read_mapping-mapping_of t) tt)
  | inr apart ↦ rw (apart, given, at) (at_transitions_of_cases ts name)
]

read_route-Conforms :
    (ts : Dict (Dict String)) (name : String)
    → Conforms (read_route (if_truthy (dict (transitions_of ts))) name)
unfolding Conforms read_route transitions_of truthy
read_route-Conforms [] name = tt
read_route-Conforms (t ∷ ts) name = at_transitions_of_cases (t ∷ ts) name

read_initial-Conforms : (i : Option String) → Conforms (read_initial (some (initial_of i)))
unfolding Conforms read_initial initial_of
read_initial-Conforms none = tt
read_initial-Conforms (some s) = tt

module _ (classes : Dict (Class State)) (with_node : Bool) where
  build_state-Conforms :
      (name : String) (os : List String)
      → Conforms (build_state classes with_node (state_spec name os))
  unfolding Conforms build_state state_spec at truthy read_args given
  build_state-Conforms name os = elim (Bool-cases (name == "")) [
    | inl empty ↦ rw (empty, build_state) tt
    | inr named ↦ elim (Option-cases (lookup classes name)) [
      | inl unknown ↦ rw (named, build_state) (rw (unknown) tt)
      | inr (k, known) ↦ elim (Bool-cases k.is_state) [
        | inl is_state ↦
            rw (named, build_state)
              (rw (known) (rw (is_state) (of_result-Conforms (construct classes with_node k []))))
        | inr other ↦ rw (named, build_state) (rw (known) (rw (other) tt))
      ]
    ]
  ]

  attach_children-Conforms :
      (ts : Dict (Dict String)) (cs : Dict (Loaded State)) (m : Machine State)
      → AllConform cs
      → Conforms (attach_children classes with_node (if_truthy (dict (transitions_of ts))) cs m)
  unfolding Conforms AllConform attach_children
  attach_children-Conforms ts [] m h = tt
  attach_children-Conforms ts ((name, s) ∷ cs) m h = then_load-Conforms s _ h.0 (λ c.
      then_load-Conforms (read_route (if_truthy (dict (transitions_of ts))) name) _
        (read_route-Conforms ts name)
        (λ t.
          then_load-Conforms (of_result (add classes name (instance_of c) (some t) m)) _
            (of_result-Conforms (add classes name (instance_of c) (some t) m))
            (λ m'. attach_children-Conforms ts cs m' h.1)))

  build_machine-Conforms :
      (class_name : String) (ps : Option (List String)) (s : Shape) (specs : Fields)
      (cs : Dict (Loaded State))
      → AllConform cs
      → Conforms (build_machine classes with_node class_name ps (machine_spec s specs) (built cs))
  unfolding Conforms build_machine machine_spec at given
  build_machine-Conforms class_name ps s specs cs h =
      then_load-Conforms
        (read_texts ("done" ∷ "failed" ∷ []) (if_truthy (list (items_of s.outcomes)))) _
        (read_texts-Conforms ("done" ∷ "failed" ∷ []) s.outcomes)
        (λ outcomes.
          then_load-Conforms (read_initial (some (initial_of s.initial))) _
            (read_initial-Conforms s.initial)
            (λ initial.
              then_load-Conforms
                (attach_children classes with_node (if_truthy (dict (transitions_of s.transitions)))
                  cs (Machine.new (some outcomes) initial))
                _
                (attach_children-Conforms s.transitions cs (Machine.new (some outcomes) initial) h)
                (λ m. tt)))

  collect_regions-Conforms :
      (rs : Dict (Loaded (Region State))) (acc : Dict (Region State))
      → AllConform rs
      → Conforms (collect_regions rs acc)
  unfolding Conforms AllConform collect_regions
  collect_regions-Conforms [] acc h = tt
  collect_regions-Conforms ((name, r) ∷ rs) acc h =
      then_load-Conforms r _ h.0
        (λ loaded. collect_regions-Conforms rs (insert name loaded acc) h.1)

  build_parallel-Conforms :
      (policy : String) (os : List String) (specs : Fields) (rs : Dict (Loaded (Region State)))
      → AllConform rs
      → Conforms (build_parallel classes with_node (parallel_spec policy os specs) (built rs))
  unfolding Conforms build_parallel parallel_spec at make_parallel
  build_parallel-Conforms policy os specs [] h = tt
  build_parallel-Conforms policy os specs (r ∷ rs) h =
      then_load-Conforms (collect_regions (r ∷ rs) []) _ (collect_regions-Conforms (r ∷ rs) [] h)
        (λ regions.
          then_load-Conforms (of_result (Parallel.new regions policy)) _
            (of_result-Conforms (Parallel.new regions policy)) (λ p. tt))

  machine_Conforms :
      (s : Shape) (cs : Children)
      → AllConform (children_in classes with_node (children_spec cs))
      → (ps : Option (List String)) → s.behavior_parameters ≡ ps
      → Conforms (build_from_spec classes with_node (to_spec (machine s cs)))
  unfolding build_from_spec build_behavior to_spec at given named_kind
  machine_Conforms s cs h none e = rw e (
      build_machine-Conforms "StateMachine" none s (children_spec cs)
        (children_in classes with_node (children_spec cs)) h)
  machine_Conforms s cs h (some ps) e = rw e (
      rw (read_texts-nil ps) (
        build_machine-Conforms "BehaviorSM" (some ps) s (children_spec cs)
          (children_in classes with_node (children_spec cs)) h))

  mutual
    unfolding Conforms AllConform build_from_spec to_spec at given named_kind kind_of

    state-Conforms : (s : State) → Conforms (build_from_spec classes with_node (to_spec s))
    state-Conforms (leaf l) = build_state-Conforms l.class_name l.outcomes
    state-Conforms (machine s cs) =
        machine_Conforms s cs (children_conform cs) s.behavior_parameters refl
    state-Conforms (retry n o s) = build_state-Conforms "RetryDecorator" (outcomes_of s)
    state-Conforms (parallel policy os rs) =
        build_parallel-Conforms policy os (regions_spec rs)
          (regions_in classes with_node (regions_spec rs)) (regions_conform rs)

    children_conform :
        (cs : Children) → AllConform (children_in classes with_node (children_spec cs))
    children_conform childless = tt
    children_conform (child name s cs) = (state-Conforms s, children_conform cs)

    regions_conform : (rs : Regions) → AllConform (regions_in classes with_node (regions_spec rs))
    regions_conform regionless = tt
    regions_conform (region name s outcomes rs) = (
      then_load-Conforms (build_from_spec classes with_node (to_spec s)) _ (state-Conforms s)
          (λ inner.
            then_load-Conforms (read_mapping (if_truthy (dict (mapping_of outcomes)))) _
              (rw (read_mapping-mapping_of outcomes) tt) (λ d. tt)),
      regions_conform rs,
    )

  -- In the spec of every tree of states the loader meets no value of a type that the schema does not
  -- allow: for every registry it builds a state or raises.
  pub to_spec-Conforms : (s : State) → Conforms (build_from_spec classes with_node (to_spec s))
  to_spec-Conforms s = state-Conforms s
