-- ===== src/Engine/Spec/Following.antt =====
-- The specs that `to_spec` writes follow the schema of the loader.
use ss_prep.Base.{
  ◌≡◌, refl, String, true, false, Option, none, some, List, [], ◌∷◌, ◌==◌, arith, Dict, dict,
  Fields,
}
use ss_prep.Engine.Tree.{
  State, leaf, machine, retry, parallel, Children, childless, child, Regions, regionless, region,
  Shape,
}
use ss_prep.Engine.Spec.Write.{
  items_of, mapping_of, transitions_of, initial_of, to_spec, children_spec, regions_spec,
  state_spec, machine_spec, parallel_spec,
}
use ss_prep.Engine.Spec.Schema.{
  are_texts, map_to_texts, map_to_maps, is_optional_text, follows, all_follow, each_region_follows,
}

are_texts-items_of : (ss : List String) → are_texts (items_of ss) ≡ true
unfolding are_texts items_of
are_texts-items_of [] = refl
are_texts-items_of (s ∷ ss) = are_texts-items_of ss

map_to_texts-mapping_of : (d : Dict String) → map_to_texts (mapping_of d) ≡ true
unfolding map_to_texts mapping_of
map_to_texts-mapping_of [] = refl
map_to_texts-mapping_of ((k, s) ∷ d) = map_to_texts-mapping_of d

map_to_maps-transitions_of : (ts : Dict (Dict String)) → map_to_maps (transitions_of ts) ≡ true
unfolding map_to_maps transitions_of
map_to_maps-transitions_of [] = refl
map_to_maps-transitions_of ((k, t) ∷ ts) =
    ground (arith, map_to_texts-mapping_of t, map_to_maps-transitions_of ts)

is_optional_text-initial_of : (i : Option String) → is_optional_text (some (initial_of i)) ≡ true
unfolding is_optional_text initial_of
is_optional_text-initial_of none = refl
is_optional_text-initial_of (some s) = refl

-- What the constructors leave: a `Parallel` has the one policy and a region. A class has a name.
unfoldable mutual
  pub IsWellMade : State → Type 0
  IsWellMade (leaf l) = (l.class_name == "") ≡ false
  IsWellMade (machine s cs) = AllWellMade cs
  IsWellMade (retry n o s) = Unit
  IsWellMade (parallel policy os rs) =
      ((policy == "first_wins") ≡ true) × (HasRegion rs × RegionsWellMade rs)

  pub AllWellMade : Children → Type 0
  AllWellMade childless = Unit
  AllWellMade (child name s cs) = IsWellMade s × AllWellMade cs

  pub HasRegion : Regions → Type 0
  HasRegion regionless = ⊥
  HasRegion (region name s outcomes rs) = Unit

  pub RegionsWellMade : Regions → Type 0
  RegionsWellMade regionless = Unit
  RegionsWellMade (region name s outcomes rs) = IsWellMade s × RegionsWellMade rs

machine_follows :
    (s : Shape) (children : Fields) (ps : Option (List String))
    → s.behavior_parameters ≡ ps
    → all_follow children ≡ true
    → follows (dict (machine_spec s children)) ≡ true
unfolding follows machine_spec
machine_follows s children none e h =
    rw
      (
        e,
        are_texts-items_of s.outcomes,
        is_optional_text-initial_of s.initial,
        map_to_maps-transitions_of s.transitions,
        h,
      )
      refl
machine_follows s children (some ps) e h =
    rw
      (
        e,
        are_texts-items_of s.outcomes,
        is_optional_text-initial_of s.initial,
        map_to_maps-transitions_of s.transitions,
        h,
        are_texts-items_of ps,
      )
      refl

mutual
  unfolding IsWellMade follows to_spec state_spec parallel_spec mapping_of

  state_follows_schema : (s : State) → IsWellMade s → follows (to_spec s) ≡ true
  state_follows_schema (leaf l) h = ground (arith, h)
  state_follows_schema (machine s cs) h =
      machine_follows s (children_spec cs) s.behavior_parameters refl (children_follow_schema cs h)
  state_follows_schema (retry n o s) h = refl
  state_follows_schema (parallel policy os rs) h = region_follow_schema policy os rs h.0 h.1.0 h.1.1

  region_follow_schema :
      (policy : String) (os : List String) (rs : Regions)
      → (policy == "first_wins") ≡ true
      → HasRegion rs
      → RegionsWellMade rs
      → follows (to_spec (parallel policy os rs)) ≡ true
  region_follow_schema policy os regionless p some_region h = absurd some_region
  region_follow_schema policy os (region name s outcomes rs) p some_region h = ground (
    arith,
    p,
    map_to_texts-mapping_of outcomes,
    state_follows_schema s h.0,
    regions_follow_schema rs h.1,
  )

  children_follow_schema : (cs : Children) → AllWellMade cs → all_follow (children_spec cs) ≡ true
  children_follow_schema childless h = refl
  children_follow_schema (child name s cs) h =
      ground (arith, state_follows_schema s h.0, children_follow_schema cs h.1)

  regions_follow_schema :
      (rs : Regions) → RegionsWellMade rs → each_region_follows (regions_spec rs) ≡ true
  regions_follow_schema regionless h = refl
  regions_follow_schema (region name s outcomes rs) h = ground (
    arith,
    map_to_texts-mapping_of outcomes,
    state_follows_schema s h.0,
    regions_follow_schema rs h.1,
  )
