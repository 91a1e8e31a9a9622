-- ===== src/Engine/Spec/Rebuildable.antt =====
-- The states that a spec determines: what is asked of them, and what they are built as.
use ss_prep.Base.{
  String, ◌≡◌, refl, ◌∙◌, ap, Bool, true, false, some, List, [], ◌∷◌, ◌++◌, ◌==◌, arith, has_key,
  is_empty, Dict, IsDict, lookup, ok, values,
}
use ss_prep.Engine.Registry.{Class}
use ss_prep.Engine.Parallel.{Parallel, Region, targets}
use ss_prep.Engine.Parallel
use ss_prep.Engine.Tree.{
  State, leaf, machine, retry, parallel, Children, childless, child, Regions, regionless, region,
}
use ss_prep.Engine.Spec.Write.{machine_kind_name}
use ss_prep.Engine.Spec.Build.{construct, tree_children, tree_regions}
use ss_prep.Engine.Spec.Attach.{SameKeys}

unfoldable pub children_dict : Children → Dict State
children_dict childless = []
children_dict (child name s cs) = (name, s) ∷ children_dict cs

unfoldable pub regions_dict : Regions → Dict (Region State)
regions_dict regionless = []
regions_dict (region name s outcomes rs) =
    (name, record { state = s; outcomes = outcomes }) ∷ regions_dict rs

-- The same tree with the classes of the engine in place of their subclasses.
unfoldable mutual
  unfolding machine_kind_name

  pub plain : State → State
  plain (leaf l) = leaf l
  plain (machine s cs) =
      machine (record s { class_name = machine_kind_name s.behavior_parameters })
        (plain_children cs)
  plain (retry n o s) = retry n o (plain s)
  plain (parallel policy os rs) = parallel policy os (plain_regions rs)

  pub plain_children : Children → Children
  plain_children childless = childless
  plain_children (child name s cs) = child name (plain s) (plain_children cs)

  pub plain_regions : Regions → Regions
  plain_regions regionless = regionless
  plain_regions (region name s outcomes rs) = region name (plain s) outcomes (plain_regions rs)

-- What `Parallel(regions, policy)` left.
abbrev pub IsConstructed : String → List String → Dict (Region State) → Type 0
IsConstructed policy os regions =
    Parallel.new regions policy ≡ ok (record { regions = regions; policy = policy; outcomes = os })

module _ (classes : Dict (Class State)) (with_node : Bool) where
  -- The registry has the class of each leaf under its name, and its constructor, called with no
  -- arguments, gives an equal state. A machine has an initial state, an outcome, and a transition map
  -- for each child, in their order, as `add` leaves them. There is no retry decorator.
  unfoldable mutual
    unfolding children_dict regions_dict construct

    pub IsRebuildable : State → Type 0
    IsRebuildable (leaf l) =
        (k : Class State) × ((l.class_name == "") ≡ false)
        × (lookup classes l.class_name ≡ some k)
        × (k.is_state ≡ true)
        × (construct classes with_node k [] ≡ ok (leaf l))
    IsRebuildable (machine s cs) =
        (i : String) × (s.initial ≡ some i)
        × (is_empty s.outcomes ≡ false)
        × SameKeys (children_dict cs) s.transitions
        × IsDict (children_dict cs)
        × IsDict s.transitions
        × AllRebuildable cs
    IsRebuildable (retry n o s) = ⊥
    IsRebuildable (parallel policy os rs) =
        IsConstructed policy os (regions_dict rs)
        × IsDict (regions_dict rs)
        × AllRegionsRebuildable rs

    pub AllRebuildable : Children → Type 0
    AllRebuildable childless = Unit
    AllRebuildable (child name s cs) = IsRebuildable s × AllRebuildable cs

    pub AllRegionsRebuildable : Regions → Type 0
    AllRegionsRebuildable regionless = Unit
    AllRegionsRebuildable (region name s outcomes rs) = IsRebuildable s × AllRegionsRebuildable rs

pub tree_children-children_dict : (cs : Children) → tree_children (children_dict cs) ≡ cs
unfolding tree_children children_dict
tree_children-children_dict childless = refl
tree_children-children_dict (child name s cs) = ap (child name s) (tree_children-children_dict cs)

pub tree_regions-regions_dict : (rs : Regions) → tree_regions (regions_dict rs) ≡ rs
unfolding tree_regions regions_dict
tree_regions-regions_dict regionless = refl
tree_regions-regions_dict (region name s outcomes rs) =
    ap (region name s outcomes) (tree_regions-regions_dict rs)

has_key-plain_children :
    (cs : Children) (k : String)
    → has_key (children_dict (plain_children cs)) k ≡ has_key (children_dict cs) k
unfolding plain children_dict lookup
has_key-plain_children childless k = refl
has_key-plain_children (child name s cs) k = ground (arith, has_key-plain_children cs k)

has_key-plain_regions :
    (rs : Regions) (k : String)
    → has_key (regions_dict (plain_regions rs)) k ≡ has_key (regions_dict rs) k
unfolding plain regions_dict lookup
has_key-plain_regions regionless k = refl
has_key-plain_regions (region name s outcomes rs) k = ground (arith, has_key-plain_regions rs k)

pub IsDict-plain_children :
    (cs : Children) → IsDict (children_dict cs) → IsDict (children_dict (plain_children cs))
unfolding plain children_dict
IsDict-plain_children childless h = tt
IsDict-plain_children (child name s cs) h =
    (has_key-plain_children cs name ∙ h.0, IsDict-plain_children cs h.1)

pub IsDict-plain_regions :
    (rs : Regions) → IsDict (regions_dict rs) → IsDict (regions_dict (plain_regions rs))
unfolding plain regions_dict
IsDict-plain_regions regionless h = tt
IsDict-plain_regions (region name s outcomes rs) h =
    (has_key-plain_regions rs name ∙ h.0, IsDict-plain_regions rs h.1)

pub SameKeys-plain_children :
    (cs : Children) (ts : Dict (Dict String))
    → SameKeys (children_dict cs) ts
    → SameKeys (children_dict (plain_children cs)) ts
unfolding plain children_dict
SameKeys-plain_children childless [] h = tt
SameKeys-plain_children childless (t ∷ ts) h = h
SameKeys-plain_children (child name s cs) [] h = h
SameKeys-plain_children (child name s cs) ((k, t) ∷ ts) h = (h.0, SameKeys-plain_children cs ts h.1)

targets-plain_regions :
    (rs : Regions)
    → targets (values (regions_dict (plain_regions rs))) ≡ targets (values (regions_dict rs))
unfolding plain regions_dict targets values
targets-plain_regions regionless = refl
targets-plain_regions (region name s outcomes rs) =
    ap (λ (ts : List String). values outcomes ++ ts) (targets-plain_regions rs)

pub IsConstructed-plain_regions :
    (policy : String) (os : List String) (rs : Regions)
    → IsConstructed policy os (regions_dict rs)
    → IsConstructed policy os (regions_dict (plain_regions rs))
unfolding plain regions_dict Parallel.new
IsConstructed-plain_regions policy os regionless h = ground arith
IsConstructed-plain_regions policy os (region name s outcomes rs) h =
    ground (arith, targets-plain_regions (region name s outcomes rs))
