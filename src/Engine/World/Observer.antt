-- ===== src/Engine/World/Observer.antt =====
-- observer.py: the path of the state that runs, and the calls of the installed observer.
use Prim.Native.String
use ss_prep.Base.{ℕ, String, Bool, Option, List, ◌∷◌, ◌==◌, if◌then◌else◌}
use ss_prep.Engine.World.Cancel.{Context}

-- One call of the observer: the path, and on exit the outcome if there is one.
pub data Event : Type 0 where
  enter_event : String → Event
  exit_event : String → Option String → Event

-- How the threads of a `Parallel` interleave: the k-th of the threads that still run ends, or the
-- main thread makes the next of its checks.
pub data Tick : Type 0 where
  finish : ℕ → Tick
  poll : Tick

-- `path` is the context variable and `global_path` the slot that other threads read. `observing`
-- says whether an observer is installed, and `trace` lists its calls, the latest first: what it
-- raises is swallowed. `schedules` has the ticks of each `Parallel` that will run.
pub record World : Type 0 where
  pub context : Context
  pub open context use *
  pub path : String
  pub global_path : String
  pub observing : Bool
  pub trace : List Event
  pub schedules : List (List Tick)

-- Code that sees no more than the context.
unfoldable pub in_context {ℓ} : {A : Type ℓ} → (Context → A × Context) → World → A × World
in_context f w = let (a, c) = f w.context in (a, record w { context = c })

unfoldable pub install_observer : Bool → World → World
install_observer obs w = record w { observing = obs }

unfoldable pub active_path : World → String
active_path w = w.global_path

unfoldable pub notify : Event → World → World
notify e w = if w.observing then record w { trace = e ∷ w.trace } else w

unfoldable pub child_path : String → String → String
child_path parent segment =
    if parent == "" then segment else String.◌++◌ parent (String.◌++◌ "." segment)

unfoldable pub enter : String → World → String × World
unfolding child_path notify
enter segment w =
    let new_path = child_path w.path segment in
    (w.path, notify (enter_event new_path) (record w { path = new_path; global_path = new_path }))

unfoldable pub exit : String → Option String → World → World
unfolding notify
exit parent_path outcome w = record (notify (exit_event w.path outcome) w) {
  path = parent_path;
  global_path = parent_path;
}

unfoldable pub reset_global_path : World → World
reset_global_path w = record w { global_path = "" }
