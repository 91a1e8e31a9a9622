-- ===== src/Engine/World.antt =====
-- mw_hfsm_engine/mw_hfsm_engine/cancel.py and observer.py: what the engine's code shares without
-- passing it on. `Context` is the part that the code of a leaf state reaches, `World` adds what
-- only the containers touch.
-- The token's event is set by other threads at any time: `arrivals n` says whether one of them
-- called `request` since the look before the n-th.
mod Cancel
mod Observer
mod Calls
mod Calm
unfoldable pub use Cancel.*
unfoldable pub use Observer.*
pub use Calls.*
pub use Calm.*
