-- ===== src/Engine/Retry.antt =====
-- decorators.py: `RetryDecorator`.
pub mod Attempts
pub mod Nesting
use ss_prep.Base.{
  ℕ, zero, suc, String, Option, none, some, List, contains, ◌==◌, if◌then◌else◌, true, false, ℤ,
  pos, negsuc, Result, ok, raise, Exc, type_error, value_error, Action,
}
use ss_prep.Engine.World.{World}
use ss_prep.Engine.Registry.{Child}

pub record Retry (C : Type 0) : Type 0 where
  pub inner : C
  pub max_retries : ℕ
  pub retry_outcome : String
  pub outcomes : List String

-- The constructor, over the declared outcomes of a child. `none` is an object that is no `State`.
unfoldable pub new : {C : Type 0} → (C → List String) → Option C → ℤ → String → Result (Retry C)
new outcomes_of none max_retries retry_outcome = raise type_error
new outcomes_of (some inner) (negsuc n) retry_outcome = raise value_error
new outcomes_of (some inner) (pos n) retry_outcome =
    if contains (outcomes_of inner) retry_outcome
    then ok (record {
      inner = inner;
      max_retries = n;
      retry_outcome = retry_outcome;
      outcomes = outcomes_of inner;
    })
    else raise value_error

-- The `while`, on the number of attempts that are left; `last` is the outcome of the last one.
unfoldable pub retry_loop : Child → String → ℕ → String → Action World String
retry_loop inner retry_outcome zero last w = (ok last, w)
retry_loop inner retry_outcome (suc left) last w = elim (last == retry_outcome) [
  | false ↦ (ok last, w)
  | true ↦
      let (r, w') = inner.execute w in
      elim r [ raise e ↦ (raise e, w') | ok o ↦ retry_loop inner retry_outcome left o w' ]
]

unfoldable pub execute : Retry Child → Action World String
execute d w =
    let (r, w') = d.inner.execute w in
    elim r [
      | raise e ↦ (raise e, w')
      | ok last ↦ retry_loop d.inner d.retry_outcome d.max_retries last w'
    ]
