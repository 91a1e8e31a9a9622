-- ===== src/Engine/Spec/Lost.antt =====
-- What a spec cannot carry (decorators.py has no `to_spec`).
use ss_prep.Base.{truthy, ℕ, String, ◌≡◌, refl, Bool, none, Dict, lookup, registry_error}
use ss_prep.Engine.Registry.{Class}
use ss_prep.Engine.Tree.{State, retry}
use ss_prep.Engine.Spec.Readers.{raised}
use ss_prep.Engine.Spec.Write.{to_spec}
use ss_prep.Engine.Spec.Build.{build_from_spec, build_state}

-- Unless a class is registered as `RetryDecorator`, the spec of a retry decorator is refused with
-- `RegistryError`, whatever the state in it.
pub retry_lost :
    (classes : Dict (Class State)) (with_node : Bool) (n : ℕ) (o : String) (s : State)
    → lookup classes "RetryDecorator" ≡ none
    → build_from_spec classes with_node (to_spec (retry n o s)) ≡ raised registry_error
unfolding to_spec build_from_spec build_state truthy
retry_lost classes with_node n o s unregistered = rw (unregistered, build_state) refl
