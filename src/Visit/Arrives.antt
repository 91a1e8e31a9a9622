-- ===== src/Visit/Arrives.antt =====
-- A visit of the three points where every drive succeeds.
use ss_prep.Base.{
  ◌≡◌, refl, ◌∙◌, ap, sym, Result, arith, String, true, false, eq_iff, ◌==◌, Bool-cases, inl, inr,
  subst, none, some, List, [], ◌∷◌, Dict, lookup, insert, lookup-insert, contains, Value, real,
  null, ℤ, ok, then_do, Action, map,
}
use ss_prep.Engine.World.{
  Context, World, IsCalm, IsLater, raise_if_cancelled, token_is_set, raise_if_cancelled_calm,
  no_look-IsLater, IsLater-trans, IsLater-IsCalm, IsLater-userdata,
}
use ss_prep.Engine.Registry.{Class}
use ss_prep.Engine.Tree.{State, behave}
use ss_prep.Skill.Future.{waited}
use ss_prep.Skill.Lifecycle.{ActionOutcome, succeeded, send_goal, Ros}
use ss_prep.Skill.Parameters.{Builtins, set_optional, set_required}
use ss_prep.Skill.DriveToPose.{
  required_keys, optional_keys, fixed_values, DriveResult, on_drive_result, drive_goal,
}
use ss_prep.Skill.DriveToPose.Drives.{drive_round}
use ss_prep.Visit.{Waypoint, waypoints, drive, visit_three_points}
use ss_prep.Visit.Course.{course}
use ss_prep.Visit.Three.{visit_three_points-course}

-- A drive that succeeds leads on to the rest of the course, after two looks at the token.
course_next :
    (leg : Action Context ActionOutcome) (legs : List (Action Context ActionOutcome))
    → (c c1 c2 c' : Context) → raise_if_cancelled c ≡ (ok tt, c1)
    → raise_if_cancelled c1 ≡ (ok tt, c2)
    → leg c2 ≡ (ok succeeded, c')
    → course (leg ∷ legs) c ≡ course legs c'
unfolding course
course_next leg legs c c1 c2 c' looked looked' drove =
    rw (looked, course) (rw (looked') (rw (drove) refl))

driven-IsCalm :
    (r : DriveResult) (c : Context)
    → IsCalm c
    → IsCalm (record c { userdata = on_drive_result r c.userdata })
unfolding token_is_set
driven-IsCalm r c calm = record { not_set = calm.not_set; no_request = calm.no_request }

-- The userdata says nothing of the optional parameters of a drive.
abbrev pub IsPlain : Dict Value → Type 0
IsPlain ud = (key : String) → contains optional_keys key ≡ true → lookup ud key ≡ none

not_optional :
    (k key : String)
    → contains optional_keys k ≡ false
    → contains optional_keys key ≡ true
    → (k == key) ≡ false
not_optional k key other optional = elim (Bool-cases (k == key)) [
  | inl same ↦
      let lost : contains optional_keys key ≡ false =
        subst (λ j. contains optional_keys j ≡ false) ((eq_iff k key).0 same) other in
      absurd (ground arith)
  | inr apart ↦ apart
]

on_drive_result-IsPlain :
    (r : DriveResult) (ud : Dict Value) → IsPlain ud → IsPlain (on_drive_result r ud)
unfolding on_drive_result
on_drive_result-IsPlain r ud plain key optional = ground (
  arith,
  plain key optional,
  lookup-insert "final_x" key (real r.final_x) ud,
  lookup-insert "final_y" key (real r.final_y) (insert "final_x" (real r.final_x) ud),
  lookup-insert "final_yaw" key (real r.final_yaw)
      (insert "final_y" (real r.final_y) (insert "final_x" (real r.final_x) ud)),
  not_optional "final_x" key refl optional,
  not_optional "final_y" key refl optional,
  not_optional "final_yaw" key refl optional,
)

-- The userdata after drives with these results.
unfoldable pub after_drives : List DriveResult → Dict Value → Dict Value
after_drives [] ud = ud
after_drives (r ∷ rs) ud = after_drives rs (on_drive_result r ud)

module _ (py : Builtins) (new_goal : Dict ℤ) (literal : String → ℤ)
    (ros : String → Ros (Dict ℤ) DriveResult) (classes : Dict (Class State)) where
  -- The goal of a drive to a waypoint.
  unfoldable pub pose_goal : Waypoint → Dict ℤ
  pose_goal p =
      insert "target_yaw" (literal p.yaw)
        (insert "target_y" (literal p.y) (insert "target_x" (literal p.x) new_goal))

  -- The server lets the drive to a waypoint succeed, with the result `r`.
  pub record Willing (p : Waypoint) (r : DriveResult) : Type 0 where
    pub up : (ros p.name).server_up [] ≡ true
    pub accepts : waited ((ros p.name).accept []) 500 ≡ some true
    pub succeeds : waited ((ros p.name).result (send_goal (pose_goal p) ∷ [])) 6000 ≡ some (true, r)

  abbrev fixed_for : Waypoint → Dict Value
  fixed_for p =
      fixed_values (real (literal p.x)) (real (literal p.y)) (real (literal p.yaw)) null null null
        null

  optional_kept :
      (p : Waypoint) (ud : Dict Value) (goal : Dict ℤ)
      → IsPlain ud
      → set_optional py (fixed_for p) ud optional_keys goal ≡ ok goal
  unfolding set_optional fixed_values lookup
  optional_kept p ud goal plain = ground (
    arith,
    plain "xy_tolerance" refl,
    plain "yaw_tolerance" refl,
    plain "max_linear_velocity" refl,
    plain "max_angular_velocity" refl,
  )

  required_set :
      (p : Waypoint) (ud : Dict Value)
      → ((x : ℤ) → py.float (real x) ≡ ok x)
      → set_required py (fixed_for p) ud required_keys new_goal ≡ ok (pose_goal p)
  unfolding set_required fixed_values pose_goal lookup
  required_set p ud float =
      ground (arith, float (literal p.x), float (literal p.y), float (literal p.yaw))

  drive_goal-pose_goal :
      (p : Waypoint) (ud : Dict Value)
      → ((x : ℤ) → py.float (real x) ≡ ok x)
      → IsPlain ud
      → drive_goal py new_goal (fixed_for p) ud ≡ ok (pose_goal p)
  unfolding drive_goal
  drive_goal-pose_goal p ud float plain =
      ap (λ r. then_do r (set_optional py (fixed_for p) ud optional_keys)) (required_set p ud float)
      ∙ optional_kept p ud (pose_goal p) plain

  drive_succeeds :
      (p : Waypoint) (r : DriveResult) (c : Context)
      → ((x : ℤ) → py.float (real x) ≡ ok x)
      → Willing p r
      → IsCalm c
      → IsPlain c.userdata
      → (c' : Context) × IsLater (record c { userdata = on_drive_result r c.userdata }) c'
        × (drive py new_goal literal ros classes p c ≡ (ok succeeded, c'))
  unfolding drive
  drive_succeeds p r c float willing calm plain =
      let (c', later, drove) =
        drive_round py new_goal _ (ros p.name)
          (record { context = c; clients_ready = false; calls = [] }) (pose_goal p) r calm
          willing.up (drive_goal-pose_goal p c.userdata float plain) willing.accepts
          willing.succeeds in
      (c', later, ap (λ q. (q.0, q.1.context)) drove)

  -- The server lets each of the drives succeed.
  unfoldable pub AllWilling : List Waypoint → List DriveResult → Type 0
  AllWilling [] [] = Unit
  AllWilling (p ∷ ps) (r ∷ rs) = Willing p r × AllWilling ps rs
  AllWilling _ _ = ⊥

  abbrev Arrives : List DriveResult → Context → Result String × Context → Type 0
  Arrives rs c p =
      (c' : Context) × IsLater (record c { userdata = after_drives rs c.userdata }) c'
      × (p ≡ (ok "done", c'))

  course-Arrives :
      (ps : List Waypoint) (rs : List DriveResult) (c : Context)
      → ((x : ℤ) → py.float (real x) ≡ ok x)
      → AllWilling ps rs
      → IsCalm c
      → IsPlain c.userdata
      → Arrives rs c (course (map (drive py new_goal literal ros classes) ps) c)
  unfolding AllWilling after_drives course
  course-Arrives [] [] c float willing calm plain = (c, no_look-IsLater c, refl)
  course-Arrives [] (r ∷ rs) c float willing calm plain = absurd willing
  course-Arrives (p ∷ ps) [] c float willing calm plain = absurd willing
  course-Arrives (p ∷ ps) (r ∷ rs) c float willing calm plain =
      let (c1, later1, looked) = raise_if_cancelled_calm c calm in
      let calm1 = IsLater-IsCalm c c1 later1 calm in
      let (c2, later2, looked') = raise_if_cancelled_calm c1 calm1 in
      let calm2 = IsLater-IsCalm c1 c2 later2 calm1 in
      let since = IsLater-trans c c1 c2 later1 later2 in
      let (c3, later3, drove) =
        drive_succeeds p r c2 float willing.0 calm2
          (subst IsPlain (sym since.same_userdata) plain) in
      let driven : Context = record c { userdata = on_drive_result r c.userdata } in
      let driven' : Context = record c2 { userdata = on_drive_result r c2.userdata } in
      let since_driven =
        IsLater-trans driven driven' c3 (IsLater-userdata c c2 (on_drive_result r) since) later3 in
      let (c4, later4, arrived) =
        course-Arrives ps rs c3 float willing.1
          (IsLater-IsCalm driven c3 since_driven (driven-IsCalm r c calm))
          (subst IsPlain (sym since_driven.same_userdata)
            (on_drive_result-IsPlain r c.userdata plain)) in
      (
        c4,
        IsLater-trans (record c { userdata = after_drives rs driven.userdata })
            (record c3 { userdata = after_drives rs c3.userdata }) c4
            (IsLater-userdata driven c3 (after_drives rs) since_driven) later4,
        course_next (drive py new_goal literal ros classes p)
              (map (drive py new_goal literal ros classes) ps) c c1 c2 c3 looked looked' drove
            ∙ arrived,
      )

  -- `VisitThreePoints` in a run that nobody cancels, with nothing in the userdata that changes a drive, and a
  -- server that takes the goals of the three waypoints and reports in time that each succeeded: the run
  -- ends with "done", and the userdata has got the results, one after the other.
  pub visit_arrives :
      (rs : List DriveResult) (w : World)
      → ((x : ℤ) → py.float (real x) ≡ ok x)
      → AllWilling waypoints rs
      → IsCalm w.context
      → IsPlain w.context.userdata
      → (s : State) × (visit_three_points py new_goal literal ros classes ≡ ok s)
        × (((behave s).execute w).0 ≡ ok "done")
        × (((behave s).execute w).1.context.userdata ≡ after_drives rs w.context.userdata)
  visit_arrives rs w float willing calm plain =
      let (s, built, runs) = visit_three_points-course py new_goal literal ros classes in
      let (c', later, arrived) = course-Arrives waypoints rs w.context float willing calm plain in
      (
        s,
        built,
        (runs w).0 ∙ ap (λ p. p.0) arrived,
        ap (λ (c : Context). c.userdata) (runs w).1
            ∙ ap (λ p. p.1.userdata) arrived
            ∙ later.same_userdata,
      )
