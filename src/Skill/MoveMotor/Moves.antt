-- ===== src/Skill/MoveMotor/Moves.antt =====
-- A run of the state that moves a motor, with a server that is active.
use ss_prep.Base.{
  ◌≡◌, refl, ◌∙◌, ap, String, true, some, ◌∷◌, lookup, lookup-insert, real, ℤ, ok, if◌then◌else◌,
  ◌==◌,
}
use ss_prep.Engine.World.{IsCalm, IsLater-IsCalm}
use ss_prep.Skill.Future.{waited}
use ss_prep.Skill.Lifecycle.{
  Ros, Node, active, succeeded, get_state, get_result, send_goal, execute,
}
use ss_prep.Skill.Lifecycle.Round.{execute_healthy, run_goal_round, ensure_server_active}
use ss_prep.Skill.Parameters.{Builtins}
use ss_prep.Skill.MoveMotor.{MotorGoal, MotorState, motor_goal, move_motor_state, on_motor_result}

module _ (py : Builtins) (default_velocity : ℤ) (m : MotorState) where
  -- In a run that nobody cancels, a server that answers `active`, is up, accepts the goal and reports that
  -- it succeeded, each in time, makes the state return `succeeded`. Three calls are made, the goal is
  -- the one that `build_goal` gives, and the userdata holds the final position; the rest of it is as
  -- before.
  execute_moves :
      (ros : Ros MotorGoal ℤ) (n : Node MotorGoal) (goal : MotorGoal) (r : ℤ)
      → IsCalm n.context
      → ros.service_up n.calls ≡ true
      → waited (ros.state n.calls) 500 ≡ some active
      → ros.server_up (get_state ∷ n.calls) ≡ true
      → motor_goal py default_velocity m n.context.userdata ≡ ok goal
      → waited (ros.accept (get_state ∷ n.calls)) 500 ≡ some true
      → waited (ros.result (send_goal goal ∷ get_state ∷ n.calls)) 6000 ≡ some (true, r)
      → (n' : Node MotorGoal) × (execute (move_motor_state py default_velocity m) ros n
          ≡ (ok succeeded, n'))
        × (n'.calls ≡ get_result ∷ send_goal goal ∷ get_state ∷ n.calls)
        × ((key : String)
            → lookup n'.context.userdata key
              ≡ (if "final_position" == key then some (real r) else lookup n.context.userdata key))
  unfolding move_motor_state on_motor_result
  execute_moves ros n goal r calm managed answered up built accepted done =
      let motor = move_motor_state py default_velocity m in
      let ready : Node MotorGoal = record n { clients_ready = true } in
      let (c1, later1, is_active) =
        ensure_server_active motor ros ready "move_motor_server" refl calm managed answered in
      let asked : Node MotorGoal = record ready { context = c1; calls = get_state ∷ n.calls } in
      let (c2, later2, ran) =
        run_goal_round motor ros asked goal r (IsLater-IsCalm n.context c1 later1 calm) up
          (ap (motor_goal py default_velocity m) later1.same_userdata ∙ built) accepted done in
      (
        record asked { context = c2; calls = get_result ∷ send_goal goal ∷ get_state ∷ n.calls },
        execute_healthy motor ros n asked refl is_active ∙ ran,
        refl,
        λ key.
            ap (λ ud. lookup ud key)
              (later2.same_userdata ∙ ap (on_motor_result r) later1.same_userdata)
            ∙ lookup-insert "final_position" key (real r) n.context.userdata,
      )
