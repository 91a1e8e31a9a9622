-- ===== src/Skill/DriveToPose/Drives.antt =====
-- What the state sends to the server, and what it gives back.
use ss_prep.Base.{
  ◌≡◌, refl, ◌∙◌, inl, inr, String, true, Option, none, some, ◌∷◌, contains, Dict, lookup, Value, ℤ,
  Exc, Result-cases, ok, raise, arith,
}
use ss_prep.Skill.Future.{waited}
use ss_prep.Skill.Lifecycle.{Ros, Node, succeeded, get_result, send_goal, execute}
use ss_prep.Engine.World.{Context, IsCalm, IsLater}
use ss_prep.Skill.Lifecycle.Round.{execute_healthy, run_goal_raises, run_goal_round}
use ss_prep.Skill.Lifecycle.{ensure_server}
use ss_prep.Skill.Parameters.{Builtins, set_required, set_optional}
use ss_prep.Skill.Parameters.Chosen.{
  chosen, converted, set_required-field, set_required-converted, set_optional-converted,
  set_optional-field,
}
use ss_prep.Skill.DriveToPose.{
  required_keys, optional_keys, DriveResult, on_drive_result, drive_goal, drive_to_pose,
}

module _ (py : Builtins) (new_goal : Dict ℤ) (fixed : Dict Value) where
  -- A goal that is built: each required attribute holds what `float` makes of the constructor's value
  -- or, without one, of the value in the userdata; so does an optional one with such a value, and
  -- without it the attribute is that of a new message.
  pub drive_goal-chosen :
      (userdata : Dict Value) (goal : Dict ℤ) (key : String)
      → drive_goal py new_goal fixed userdata ≡ ok goal
      → ((contains required_keys key ≡ true)
          → (x : ℤ) × (converted py fixed userdata key ≡ ok (some x)) × (lookup goal key ≡ some x))
        × ((contains optional_keys key ≡ true)
            → (found : Option ℤ) × (converted py fixed userdata key ≡ ok found)
              × (lookup goal key ≡ elim found [ some x ↦ some x | none ↦ lookup new_goal key ]))
  unfolding drive_goal
  drive_goal-chosen userdata goal key h =
      elim (Result-cases (set_required py fixed userdata required_keys new_goal)) [
        | inl (middle, r) ↦
            let rest : set_optional py fixed userdata optional_keys middle ≡ ok goal = rw r at h in
            (
              λ named.
                  let (x, c) =
                    set_required-converted py fixed userdata required_keys new_goal middle key r
                      named in
                  (
                    x,
                    c,
                    ground (
                      arith,
                      set_required-field py fixed userdata required_keys new_goal middle key
                          (some x) r c,
                      set_optional-field py fixed userdata optional_keys middle goal key (some x)
                          rest c,
                    ),
                  ),
              λ named.
                  let (found, c) =
                    set_optional-converted py fixed userdata optional_keys middle goal key rest
                      named in
                  (
                    found,
                    c,
                    ground (
                      arith,
                      set_required-field py fixed userdata required_keys new_goal middle key found r
                          c,
                      set_optional-field py fixed userdata optional_keys middle goal key found rest
                          c,
                    ),
                  ),
            )
        | inr (e, r) ↦ absurd (ground arith)
      ]

  -- Without a value for a required key, nothing is sent: the state raises, and the calls and the
  -- userdata are as before.
  pub missing_key_sends_nothing :
      (ros : Ros (Dict ℤ) DriveResult) (n : Node (Dict ℤ)) (key : String)
      → contains required_keys key ≡ true
      → chosen fixed n.context.userdata key ≡ none
      → ros.server_up n.calls ≡ true
      → (e : Exc) × (execute (drive_to_pose py new_goal fixed) ros n
          ≡ (raise e, record n { clients_ready = true }))
  unfolding drive_to_pose ensure_server converted
  missing_key_sends_nothing ros n key named missing up =
      elim (Result-cases (drive_goal py new_goal fixed n.context.userdata)) [
        | inl (goal, built) ↦
            let (x, found, held) = (drive_goal-chosen n.context.userdata goal key built).0 named in
            let lost : converted py fixed n.context.userdata key ≡ ok none =
              rw (missing, converted) refl in
            absurd (ground arith)
        | inr (e, fails) ↦ (
          e,
          execute_healthy (drive_to_pose py new_goal fixed) ros n
                (record n { clients_ready = true }) refl refl
              ∙ run_goal_raises (drive_to_pose py new_goal fixed) ros
                  (record n { clients_ready = true }) e up fails,
        )
      ]

  -- A drive with a server that is up, accepts and succeeds in time, with all that it leaves.
  pub drive_round :
      (ros : Ros (Dict ℤ) DriveResult) (n : Node (Dict ℤ)) (goal : Dict ℤ) (r : DriveResult)
      → IsCalm n.context
      → ros.server_up n.calls ≡ true
      → drive_goal py new_goal fixed n.context.userdata ≡ ok goal
      → waited (ros.accept n.calls) 500 ≡ some true
      → waited (ros.result (send_goal goal ∷ n.calls)) 6000 ≡ some (true, r)
      → (c : Context) × IsLater
          (record (n.context) { userdata = on_drive_result r n.context.userdata })
          c
        × (execute (drive_to_pose py new_goal fixed) ros n ≡ (
          ok succeeded,
          record {
            context = c;
            clients_ready = true;
            calls = get_result ∷ send_goal goal ∷ n.calls;
          },
        ))
  unfolding drive_to_pose ensure_server
  drive_round ros n goal r calm up built accepted done =
      let drive = drive_to_pose py new_goal fixed in
      let ready : Node (Dict ℤ) = record n { clients_ready = true } in
      let (c, later, ran) = run_goal_round drive ros ready goal r calm up built accepted done in
      (c, later, execute_healthy drive ros n ready refl refl ∙ ran)
