-- ===== src/Engine/Machine/Total.antt =====
-- Which errors a run of a machine can end with.
use ss_prep.Base.{
  ℕ, ◌<◌, String, ◌≡◌, ◌⊎◌, inl, inr, true, some, arith, contains, Dict, lookup, has_key, Exc, ok,
  raise, hfsm_error, cancelled_error, sym, Result-cases,
}
use ss_prep.Engine.World.{World, raise_if_cancelled, raise_if_cancelled_error}
use ss_prep.Engine.Registry.{Child}
use ss_prep.Engine.Machine.{Machine, goto, execute}
use ss_prep.Engine.Machine.Round.{
  Ran, Round, stopped, missing_child, child_raised, undeclared, no_transitions, unmapped, terminal,
  onward, dangling,
}
use ss_prep.Engine.Machine.Trail.{Goes, here, next, Ends, returns, raises, IsRun, run_loop-IsRun}
use ss_prep.Engine.Machine.Outcome.{execute-outcomes, execute-starts}

-- The outcome of a child leads to a terminal outcome or to a child.
pub record IsRouted (m : Machine Child) (name outcome : String) : Type 0 where
  pub trans : Dict String
  pub target : String
  pub known : lookup m.transitions name ≡ some trans
  pub mapped : lookup trans outcome ≡ some target
  pub leads : (contains m.outcomes target ≡ true) ⊎ (has_key m.children target ≡ true)

-- Every declared outcome of every child is routed, and the run starts at a child.
pub record IsComplete (m : Machine Child) : Type 0 where
  pub first : String
  pub starts : m.initial ≡ some first
  pub found : has_key m.children first ≡ true
  pub routed :
      (name : String) (child : Child) (outcome : String)
      → lookup m.children name ≡ some child
      → contains child.outcomes outcome ≡ true
      → IsRouted m name outcome

-- A child that keeps to its declared outcomes.
abbrev pub IsHonest : Child → Type 0
IsHonest c = (w : World) (o : String) → (c.execute w).0 ≡ ok o → contains c.outcomes o ≡ true

abbrev pub AllHonest : Machine Child → Type 0
AllHonest m = (name : String) (c : Child) → lookup m.children name ≡ some c → IsHonest c

-- The exception `e` as the end of a run from `first` in the world `w` that has made some rounds: the look
-- at the token raised it, or the child that was entered did, or the cap was reached.
pub data IsExpected (m : Machine Child) (first : String) (w : World) (e : Exc) : Type 0 where
  cancelled :
      (n : ℕ) (d : String) (v : World)
      → n < 10000
      → Goes m d v n first w
      → (raise_if_cancelled v.context).0 ≡ raise e
      → e ≡ cancelled_error
      → IsExpected m first w e
  raised_below :
      (n : ℕ) (d : String) (v : World) (child : Child) (w' : World)
      → n < 10000
      → Goes m d v n first w
      → Ran m d v child (raise e) w'
      → IsExpected m first w e
  capped :
      (d : String) (v : World) → Goes m d v 10000 first w → e ≡ hfsm_error → IsExpected m first w e

module _ (m : Machine Child) (complete : IsComplete m) (honest : AllHonest m) where
  -- The rounds that go on lead to children.
  Goes-child :
      (d : String) (v : World) (n : ℕ) (current : String) (w : World)
      → Goes m d v n current w
      → has_key m.children current ≡ true
      → has_key m.children d ≡ true
  Goes-child d v n current w (here p q) known = ground arith
  Goes-child d v n current w (next {n = k} c w1 round goes) known =
      Goes-child d v k c w1 goes (leads_on round)
    where
      leads_on : Round m current w (ok (goto c)) w1 → has_key m.children c ≡ true
      leads_on (stopped e seen p q) = cc
      leads_on (missing_child looked gone p q) = cc
      leads_on (child_raised child e ran p) = cc
      leads_on (undeclared child o ran u p) = cc
      leads_on (no_transitions child o ran u k' p) = cc
      leads_on (unmapped child o trans ran u k' u' p) = cc
      leads_on (terminal t a u p) = cc
      leads_on (onward t a u is_child p) = ground arith
      leads_on (dangling t a u no_child p) = cc

  -- What a child's declared outcome leads to, in the two cases that the machine could refuse.
  not_undeclared :
      (d : String) (v : World) (child : Child) (o : String) (w' : World)
      → Ran m d v child (ok o) w'
      → contains child.outcomes o ≡ true
  not_undeclared d v child o w' ran = honest d child ran.is_child _ o ran.gave

  Ends-IsExpected :
      (first : String) (w : World) (n : ℕ) (d : String) (v : World) (e : Exc) (w' : World)
      → n < 10000
      → Goes m d v n first w
      → has_key m.children d ≡ true
      → Round m d v (raise e) w'
      → IsExpected m first w e
  Ends-IsExpected first w n d v e w' below goes known (stopped x seen p q) =
      let same : x ≡ e = ground arith in
      let seen' : (raise_if_cancelled v.context).0 ≡ raise e = rw (same) at seen in
      cancelled n d v below goes seen' (raise_if_cancelled_error v.context e seen')
  Ends-IsExpected first w n d v e w' below goes known (missing_child looked gone p q) =
      absurd (ground arith)
  Ends-IsExpected first w n d v e w' below goes known (child_raised child x ran p) =
      let same : x ≡ e = ground arith in
      let ran' : Ran m d v child (raise e) w' = rw (same) at ran in
      raised_below n d v child w' below goes ran'
  Ends-IsExpected first w n d v e w' below goes known (undeclared child o ran u p) =
      absurd (ground (arith, not_undeclared d v child o w' ran))
  Ends-IsExpected first w n d v e w' below goes known (no_transitions child o ran u k p) =
      absurd (ground (arith, complete.routed d child o ran.is_child u))
  Ends-IsExpected first w n d v e w' below goes known (unmapped child o trans ran u k u' p) =
      absurd (ground (arith, complete.routed d child o ran.is_child u))
  Ends-IsExpected first w n d v e w' below goes known (terminal t a u p) = cc
  Ends-IsExpected first w n d v e w' below goes known (onward t a u c p) = cc
  Ends-IsExpected first w n d v e w' below goes known (dangling t a u c p) =
      let r = complete.routed d a.child a.outcome a.ran.is_child a.declared in
      absurd (ground (arith, a.known, a.maps, r))

  IsRun-IsExpected :
      (w : World) (e : Exc) (w' : World)
      → IsRun m 10000 complete.first w (raise e) w'
      → IsExpected m complete.first w e
  IsRun-IsExpected w e w' (inr (p, goes)) = capped goes.0 w' goes.1 (ground arith)
  IsRun-IsExpected w e w' (inl (n, below, trail)) = ended trail.ends
    where
      last_child : has_key m.children trail.last ≡ true
      last_child =
          Goes-child trail.last trail.last_world n complete.first w trail.goes complete.found

      ended : Ends m trail.last trail.last_world (raise e) w' → IsExpected m complete.first w e
      ended (returns t round p) = cc
      ended (raises x round p) =
          let same : x ≡ e = ground arith in
          let round' : Round m trail.last trail.last_world (raise e) w' = rw (same) at round in
          Ends-IsExpected complete.first w n trail.last trail.last_world e w' below trail.goes
            last_child round'

-- A machine whose children all keep to their declared outcomes, whose every declared outcome is
-- routed and whose initial state is a child, ends a run with an outcome of its own, or with an
-- exception of three kinds, after rounds that went on: `CancelledError` of its look at the token, one
-- that the child raised which it had entered, or the `HfsmError` of the cap. It raises no
-- `TransitionError` and no `KeyError` of its own.
pub execute_total :
    (m : Machine Child) (w : World)
    → (complete : IsComplete m) → AllHonest m
    → ((t : String) × ((execute m w).0 ≡ ok t) × (contains m.outcomes t ≡ true))
      ⊎ ((e : Exc) × ((execute m w).0 ≡ raise e) × IsExpected m complete.first w e)
execute_total m w complete honest =
    let starts = execute-starts m complete.first w complete.starts in
    elim (Result-cases (execute m w).0) [
      | inl (t, ran) ↦ inl (t, ran, execute-outcomes m w t ran)
      | inr (e, ran) ↦
          let run : IsRun m 10000 complete.first w (raise e) (execute m w).1 =
            rw (sym ran, starts) (run_loop-IsRun m 10000 complete.first w) in
          inr (e, ran, IsRun-IsExpected m complete honest w e (execute m w).1 run)
    ]
