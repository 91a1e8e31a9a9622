-- ===== src/Engine/Tree/Nesting.antt =====
-- What the observer is told of a whole tree.
use ss_prep.Base.{Bool-cases, inl, inr, ◌==◌, String, ◌≡◌, some, ◌∷◌, Dict, lookup, values, arith}
use ss_prep.Engine.World.{World, IsTidy, in_context-IsTidy}
use ss_prep.Engine.Registry.{Child}
use ss_prep.Engine.Machine.Nesting as MachineNesting
use ss_prep.Engine.Retry.Nesting as RetryNesting
use ss_prep.Engine.Parallel.Nesting as ParallelNesting
use ss_prep.Engine.Tree.{
  State, leaf, machine, retry, parallel, Children, childless, child, Regions, regionless, region,
  as_machine, as_retry, as_parallel, outcomes_of, behave, behave_children, behave_regions,
}

one-IsTidy :
    (n : String) (first : Child) (others : Dict Child) (name : String) (c : Child)
    → lookup ((n, first) ∷ others) name ≡ some c
    → (w : World) → ((v : World) → IsTidy v (first.execute v).1)
    → (lookup others name ≡ some c → (v : World) → IsTidy v (c.execute v).1)
    → IsTidy w (c.execute w).1
unfolding lookup
one-IsTidy n first others name c e w here there = elim (Bool-cases (n == name)) [
  | inl same ↦ let it : first ≡ c = ground arith in rw (← it) (here w)
  | inr other ↦ there (ground arith) w
]

mutual
  unfolding behave lookup values

  behave-IsTidy : (s : State) (w : World) → IsTidy w ((behave s).execute w).1
  behave-IsTidy (leaf l) w = in_context-IsTidy l.code w
  behave-IsTidy (machine s cs) w =
      MachineNesting.execute-IsTidy (as_machine s (behave_children cs)) (children-IsTidy cs) w
  behave-IsTidy (retry n o s) w =
      RetryNesting.execute-IsTidy (as_retry n o (outcomes_of s) (behave s)) (behave-IsTidy s) w
  behave-IsTidy (parallel policy os rs) w =
      ParallelNesting.execute-IsTidy (as_parallel policy os (behave_regions rs)) (regions-IsTidy rs)
        w

  children-IsTidy : (cs : Children) → MachineNesting.AllTidy (behave_children cs)
  children-IsTidy childless name c e w = cc
  children-IsTidy (child n s cs) name c e w =
      one-IsTidy n (behave s) (behave_children cs) name c e w (behave-IsTidy s)
        (children-IsTidy cs name c)

  regions-IsTidy : (rs : Regions) → ParallelNesting.AllTidy (values (behave_regions rs))
  regions-IsTidy regionless = tt
  regions-IsTidy (region n s mapping rs) = (behave-IsTidy s, regions-IsTidy rs)

-- Running any state, whatever its result, exceptions included, leaves the path and the observer of
-- the caller as they were; the observer has been told of properly nested calls, each at the path of
-- its caller and one segment more.
pub state-IsTidy : (s : State) (w : World) → IsTidy w ((behave s).execute w).1
state-IsTidy s w = behave-IsTidy s w
