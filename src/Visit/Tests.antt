-- ===== src/Visit/Tests.antt =====
-- The three points with a server that is willing, and with one that refuses the second goal.
use ss_prep.Base.{
  ◌≡◌, refl, ◌==◌, if◌then◌else◌, String, true, false, not, none, some, [], ◌∷◌, Dict, lookup, real,
  ℤ, pos, ok, raise, type_error, map, insert,
}
use ss_prep.Engine.World.{Context, World, raise_if_cancelled}
use ss_prep.Engine.Tree.{State, behave}
use ss_prep.Skill.Future.{Future, waited, wait_loop, wait_future}
use ss_prep.Skill.Lifecycle.{active, Ros, execute}
use ss_prep.Skill.Parameters.{Builtins}
use ss_prep.Skill.DriveToPose.{DriveResult, drive_to_pose, fixed_values}
use ss_prep.Visit.{waypoints, drive, visit_three_points}
use ss_prep.Visit.Course.{course, Agrees}
use ss_prep.Visit.Arrives.{AllWilling, after_drives}
use ss_prep.Visit.Three.{visit_three_points-course}
use ss_prep.Base.{sym, subst, to_dict, update}
use ss_prep.Engine.Behavior.{seed}
use ss_prep.Executor.Node.{Goal, GoalResult, succeed}
use ss_prep.Executor.Builder.{Env, safe_json_loads, dumps}
use ss_prep.Executor.Dispatch.{run_args, execute_goal}
use ss_prep.Executor.Samples.{encoding, waiting}
use ss_prep.Visit.Arrives.{IsPlain}
use ss_prep.Visit.Goal.{visit_class, visit_goal}

abbrev reals_only : Builtins
reals_only = record { float = λ v. elim v [ real x ↦ ok x | _ ↦ raise type_error ]; text = λ v. "" }

abbrev literal : String → ℤ
literal s = if s == "1.0" then pos 10 else pos 0

abbrev soon : {A : Type 0} → A → Future A
soon a = record { ready = some 1; value = some a }

abbrev nodes : String → Ros (Dict ℤ) DriveResult
nodes name = record {
  service_up = λ calls. true;
  server_up = λ calls. true;
  state = λ calls. soon active;
  change = λ calls. soon true;
  accept = λ calls. soon (not (name == "P2"));
  result = λ calls. soon (true, record { final_x = pos 1; final_y = pos 2; final_yaw = pos 3 });
}

abbrev calm : Context
calm = record { userdata = []; token = none; arrivals = λ n. false; looks = 0 }

visit_three_points-course_example :
    (s : State) × (visit_three_points reals_only [] literal nodes [] ≡ ok s)
    × ((w : World)
        → Agrees
            ((behave s).execute w)
            (course (map (drive reals_only [] literal nodes []) waypoints) w.context))
visit_three_points-course_example = visit_three_points-course reals_only [] literal nodes []

-- The goal for the second point is refused.
second_refused :
    (course (map (drive reals_only [] literal nodes []) waypoints) calm).0 ≡ ok "failed"
unfolding course drive execute raise_if_cancelled wait_future wait_loop lookup insert drive_to_pose
    fixed_values
second_refused = refl

abbrev willing_nodes : String → Ros (Dict ℤ) DriveResult
willing_nodes name = record (nodes name) { accept = λ calls. soon true }

abbrev reached : DriveResult
reached = record { final_x = pos 1; final_y = pos 2; final_yaw = pos 3 }

all_willing :
    AllWilling reals_only [] literal willing_nodes [] waypoints (reached ∷ reached ∷ reached ∷ [])
unfolding AllWilling waited
all_willing = (
  record { up = refl; accepts = refl; succeeds = refl },
  (
    record { up = refl; accepts = refl; succeeds = refl },
    (record { up = refl; accepts = refl; succeeds = refl }, tt),
  ),
)

-- A node with the class, and a goal for it with no parameters.
abbrev visiting : Env
visiting = record encoding {
  classes = ("VisitThreePoints", visit_class reals_only [] literal willing_nodes []) ∷ [];
}

abbrev three_points : Goal
three_points = record {
  subjob_id = "VisitThreePoints";
  behavior_parameter_json = "{}";
  userdata_in_json = "";
}

registered :
    lookup visiting.classes "VisitThreePoints"
    ≡ some (visit_class reals_only [] literal willing_nodes [])
unfolding lookup
registered = refl

nothing_seeded :
    seed (
      run_args visiting "VisitThreePoints"
        (safe_json_loads visiting "{}")
        (safe_json_loads visiting ""))
    ≡ []
unfolding seed safe_json_loads to_dict update run_args
nothing_seeded = refl

seed-IsPlain : IsPlain (
    seed (
      run_args visiting "VisitThreePoints"
        (safe_json_loads visiting "{}")
        (safe_json_loads visiting "")))
unfolding lookup
seed-IsPlain = subst IsPlain (sym nothing_seeded) (λ key optional. refl)

visit_goal_example :
    let (returned, e') = execute_goal visiting three_points waiting in
    (result : GoalResult) × (returned ≡ ok result)
    × (result.succeeded ≡ true)
    × (dumps visiting (
          after_drives (reached ∷ reached ∷ reached ∷ []) (
            seed (
              run_args visiting "VisitThreePoints"
                (safe_json_loads visiting "{}")
                (safe_json_loads visiting ""))))
        ≡ ok result.userdata_out_json)
    × (e'.ended ≡ succeed ∷ [])
    × (e'.busy ≡ false)
visit_goal_example =
    visit_goal reals_only [] literal willing_nodes [] visiting three_points waiting
      (reached ∷ reached ∷ reached ∷ []) (λ d. ("{}", refl)) registered (λ n. refl) seed-IsPlain
      (λ x. refl) all_willing
