-- ===== src/Skill/Lifecycle/Round.antt =====
-- `execute` of a skill state as a whole, where the server is up.
use ss_prep.Base.{
  String, ◌≡◌, refl, ◌∙◌, ap, true, not, ◌&&◌, ◌==◌, none, some, List, ◌∷◌, Bool-cases, inl, inr,
  Exc, ok, raise, >>=-eq,
}
use ss_prep.Engine.World.{Context, IsCalm, IsLater, IsLater-trans, IsLater-IsCalm, IsLater-userdata}
use ss_prep.Skill.Future.{waited, wait_future_calm}
use ss_prep.Skill.Lifecycle.{
  Call, get_state, get_result, send_goal, Ros, Skill, Node, succeeded, active, call_and_wait,
  after_accept, await_result, result_outcome, send_and_wait, finish_goal, run_goal, ensure_server,
  lazy_init_clients, execute, get_lifecycle_state_id, from_state, ensure_lifecycle_active,
}

module _ {G R : Type 0} (s : Skill G R) (ros : Ros G R) where
  lazy_init_ready :
      (n : Node G)
      → s.has_action_type && not (s.action_name == "") ≡ true
      → lazy_init_clients s ros n ≡ (ok tt, record n { clients_ready = true })
  unfolding lazy_init_clients
  lazy_init_ready n h = elim (Bool-cases n.clients_ready) [
    | inl ready ↦
        let skipped : lazy_init_clients s ros n ≡ (ok tt, n) = rw (ready, lazy_init_clients) refl in
        skipped ∙ ap (λ b. (ok tt, record n { clients_ready = b })) ready
    | inr fresh ↦ rw (fresh, h) refl
  ]

  -- Once the check of the server is known.
  pub execute_healthy :
      (n n' : Node G)
      → s.has_action_type && not (s.action_name == "") ≡ true
      → ensure_server s ros (record n { clients_ready = true }) ≡ (ok true, n')
      → execute s ros n ≡ run_goal s ros n'
  unfolding execute
  execute_healthy n n' h healthy =
      >>=-eq (lazy_init_clients s ros) _ n (ok tt) (record n { clients_ready = true })
        (lazy_init_ready n h)
      ∙ >>=-eq (ensure_server s ros) _ (record n { clients_ready = true }) (ok true) n' healthy

  pub run_goal_raises :
      (n : Node G) (e : Exc)
      → ros.server_up n.calls ≡ true
      → s.build_goal n.context.userdata ≡ raise e
      → run_goal s ros n ≡ (raise e, n)
  unfolding run_goal
  run_goal_raises n e up fails = rw (up, fails) refl

  call_answered :
      {A : Type 0} (call : Call G) (answer : List (Call G) → _) (limit : _) (n : Node G) (a : A)
      → IsCalm n.context
      → waited (answer n.calls) limit ≡ some a
      → (c : Context) × IsLater n.context c
        × (call_and_wait s ros call answer limit n
            ≡ (ok (some a), record n { context = c; calls = call ∷ n.calls }))
  unfolding call_and_wait
  call_answered call answer limit n a calm e =
      let (c, later, waits) = wait_future_calm (answer n.calls) limit n.context calm in
      (c, later, rw (waits, e) refl)

  -- A goal that is accepted and succeeds in time.
  pub run_goal_round :
      (n : Node G) (goal : G) (r : R)
      → IsCalm n.context
      → ros.server_up n.calls ≡ true
      → s.build_goal n.context.userdata ≡ ok goal
      → waited (ros.accept n.calls) s.goal_accept_timeout ≡ some true
      → waited (ros.result (send_goal goal ∷ n.calls)) s.goal_complete_timeout ≡ some (true, r)
      → (c : Context) × IsLater
          (record (n.context) { userdata = s.on_result r n.context.userdata })
          c
        × (run_goal s ros n ≡ (
          ok succeeded,
          record n { context = c; calls = get_result ∷ send_goal goal ∷ n.calls },
        ))
  unfolding run_goal send_and_wait after_accept await_result finish_goal result_outcome
  run_goal_round n goal r calm up built accepted done =
      let (c1, later1, first) =
        call_answered (send_goal goal) ros.accept s.goal_accept_timeout n true calm accepted in
      let n1 : Node G = record n { context = c1; calls = send_goal goal ∷ n.calls } in
      let (c2, later2, second) =
        call_answered get_result ros.result s.goal_complete_timeout n1 (true, r)
          (IsLater-IsCalm n.context c1 later1 calm) done in
      let n2 : Node G = record n { context = c2; calls = get_result ∷ send_goal goal ∷ n.calls } in
      let whole : send_and_wait s ros goal n
          ≡ (ok (record { outcome = succeeded; result = some r }), n2) =
        >>=-eq (call_and_wait s ros (send_goal goal) ros.accept s.goal_accept_timeout)
          (after_accept s ros) n (ok (some true)) n1 first
        ∙ >>=-eq (call_and_wait s ros get_result ros.result s.goal_complete_timeout) _ n1
            (ok (some (true, r))) n2 second in
      (
        record c2 { userdata = s.on_result r c2.userdata },
        IsLater-userdata n.context c2 (s.on_result r) (IsLater-trans n.context c1 c2 later1 later2),
        rw (up, built)
            (>>=-eq (send_and_wait s ros goal) (finish_goal s ros) n
              (ok (record { outcome = succeeded; result = some r })) n2 whole),
      )

  -- A server that is active needs no transition.
  pub ensure_server_active :
      (n : Node G) (name : String)
      → s.server_node_name ≡ some name
      → IsCalm n.context
      → ros.service_up n.calls ≡ true
      → waited (ros.state n.calls) s.lifecycle_wait_timeout ≡ some active
      → (c : Context) × IsLater n.context c
        × (ensure_server s ros n ≡ (ok true, record n { context = c; calls = get_state ∷ n.calls }))
  unfolding ensure_server ensure_lifecycle_active get_lifecycle_state_id from_state
  ensure_server_active n name managed calm up answered =
      let (c, later, asked) =
        call_answered get_state ros.state s.lifecycle_wait_timeout n active calm answered in
      (
        c,
        later,
        ap (elim [ none ↦ (ok true, n) | some _ ↦ ensure_lifecycle_active s ros n ]) managed
            ∙ rw (up, ensure_lifecycle_active)
                (>>=-eq (get_lifecycle_state_id s ros) (from_state s ros) n (ok (some active))
                  (record n { context = c; calls = get_state ∷ n.calls }) asked),
      )
