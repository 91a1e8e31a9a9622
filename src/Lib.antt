-- ===== src/Lib.antt =====
-- The robot-side Task Manager: a hierarchical state machine engine, the ROS node that runs its
-- SubJobs, the skill states they are made of, the watchdog over the skill servers, the repository of
-- specs, the bridge to a fleet controller and the robot emulator.
--
-- How the parts interact: a client, which may be the bridge (Rcs), sends the executor (Executor) a
-- goal; the executor builds the SubJob from the registry of classes (Engine/Registry) or from a
-- spec of the repository (Repository), and runs it on the engine (Engine). The leaf states of a
-- SubJob call actions of the skill servers (Skill), which the supervisor (Supervisor) keeps
-- active; in tests the servers move the emulated robot (Emulator).
--
-- Which file models which part:
--   Base                helpers: Python's results and dictionaries, JSON values, whole numbers.
--   Engine/World        mw_hfsm_engine/mw_hfsm_engine/cancel.py and observer.py: CancelToken, the
--                       context variable, enter, exit. Requests of other threads come as a stream of
--                       answers, one for each look at the token; Engine/World/Calm is a context that
--                       nobody cancels.
--   Engine/Registry     state.py: StateRegistry, register_state. Engine/Registry/Ids has ids and clear.
--   Engine/Machine      state_machine.py: add is `add`, execute is `execute` over `run_loop`.
--                       Engine/Machine/Round says as a relation which way a round of the loop goes.
--   Engine/Retry        decorators.py: RetryDecorator.
--   Engine/Parallel     parallel.py: the threads of the regions end in the order of a schedule, which
--                       also says where the main thread makes its next check: for a winner, for
--                       threads that run, at the token.
--   Engine/Behavior     behavior_sm.py: BehaviorSM.run.
--   Engine/Tree         the classes together, as a tree of states, and the dispatch of execute.
--   Engine/SubJob       the calls of run on such a tree, which only a BehaviorSM has.
--   Engine/Userdata     userdata.py: access by item and by attribute.
--   Engine/Spec         to_spec of each class, and spec_loader.py: build_from_spec. Its recursion goes
--                       through the fields of a spec to the value of the key that it looks for.
--                       Engine/Spec/Schema has the schema of the module comment.
--   Skill/Future        mw_hfsm_ros/mw_hfsm_ros/lifecycle_action_state.py: _wait_future.
--   Skill/Lifecycle     the other methods of LifecycleAwareActionState.
--   Skill/Parameters    mw_skill_states/mw_skill_states/drive_to_pose.py and move_motor.py: how a value
--                       of a goal is found. Skill/DriveToPose and Skill/MoveMotor are the states, the
--                       latter with capture_image.py.
--   Visit               mw_hfsm_examples/mw_hfsm_examples/visit_three_points.py: the SubJob that the
--                       constructor builds, Visit/Course, the course that it runs, and
--                       Visit/Arrives, where all drives succeed; Visit/Goal is a goal for it.
--   Executor            mw_task_manager/mw_task_manager/hfsm_executor_node.py: _execute_goal is
--                       `execute_goal`, from `begin` over `dispatch` to one of the three ends
--                       (Executor/Dispatch). Executor/Node has the object and the callbacks,
--                       Executor/Builder the build of the SubJob, Executor/Stored one that comes from
--                       the repository, Executor/Saved one that a client has saved there.
--                       Executor/Verdict says which goals succeed.
--                       Executor/Imports is __init__ with _import_subjob_modules, Executor/Serial the
--                       callbacks and the executions in any order.
--   Supervisor          mw_skill_supervisor/mw_skill_supervisor/supervisor_node.py: _kick, _on_state,
--                       _fire_transition and _on_transition_done, as steps on one skill;
--                       Supervisor/Recovery runs them against a server with a lifecycle.
--   Repository          mw_task_repository/mw_task_repository/repo_node.py: what the three services do
--                       to the files. Repository/Node has _ensure_repo, _load_cb and _save_cb with
--                       their responses and the calls of git, Repository/Node/History git's log and
--                       Repository/Node/Latest what is loaded after some saves.
--                       Repository/Dispatch is dispatch_cli.py: fetch and main.
--   Rcs                 mw_rcs_bridge/mw_rcs_bridge/schema.py (Rcs/Schema) and rcs_bridge_node.py:
--                       submit_order, cancel_order and snapshot (Rcs/Bridge) and do_POST and do_GET
--                       over them (Rcs/Server). Rcs/Ordered follows an order through the executor,
--                       which accepts it or not, to the snapshot, Rcs/Stored one for a SubJob that was saved before, and
--                       Rcs/Busy one that the executor rejects.
--   Emulator            mw_robot_emulator/mw_robot_emulator/virtual_robot_node.py: the state
--                       (Emulator/Robot), the services (Emulator/Services), _update_physics and
--                       what is published (Emulator/Physics). Emulator/Sound has the states that
--                       they reach.
-- In each part the Tests modules run the definitions on small inputs.
--
-- State is passed explicitly: a method that writes and may raise is an `Action`, which gives the
-- result and the state, also after a raise.
--
-- Bounds: the visits of a machine are capped at 10000 as in the code, and the loop of the model
-- counts the same number down. A wait counts poll intervals down to its deadline. The schedule of a
-- Parallel is a list; when it ends, the remaining threads end in the order of their start, so no
-- execution is cut short.
--
-- Not modelled: what Python makes of a spec with values of the wrong types, the parts of the
-- constructors that only wire ROS, the web GUI, the C++ skill servers, launch files and logging.
-- Outside calls (rclpy, json, git, the clock, float and str) are parameters; files are read and
-- written without errors of the disk. Float rounding is not modelled: the emulator counts in exact
-- units, and no result says where a motion ends. The thread of a region runs as a whole when it
-- ends: how the regions' own steps interleave, and what those that lost do and publish after the
-- Parallel has returned, is left out. Each drive of Visit is one call of execute on a new object,
-- as in a run of the SubJob that its constructor has just built.
pub mod Base
pub mod Emulator
pub mod Engine
pub mod Executor
pub mod Rcs
pub mod Repository
pub mod Skill
pub mod Supervisor
pub mod Visit
