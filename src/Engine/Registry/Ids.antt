-- ===== src/Engine/Registry/Ids.antt =====
-- state.py: the ids of the registry, and its reset.
use ss_prep.Base.{
  String, ◌≡◌, refl, ◌∙◌, true, false, List, [], lookup, keys, keys-has_key, contains, Dict, ok,
  raise, registry_error, Option-cases, inl, inr, arith,
}
use ss_prep.Engine.Registry.{Class, resolve}
use ss_prep.Engine.Parallel.{sorted_set}
use ss_prep.Engine.Parallel.Winner.{contains-sorted_set}

module _ {A : Type 0} where
  -- `StateRegistry.ids`.
  unfoldable pub ids : Dict (Class A) → List String
  unfolding sorted_set
  ids classes = sorted_set (keys classes)

  -- `StateRegistry.clear`.
  unfoldable pub clear : Dict (Class A) → Dict (Class A)
  clear classes = []

  -- The ids that are listed are those that `resolve` finds a class for.
  pub contains-ids :
      (classes : Dict (Class A)) (id : String)
      → ((contains (ids classes) id ≡ true) → (klass : Class A) × (resolve classes id ≡ ok klass))
        × ((contains (ids classes) id ≡ false) → resolve classes id ≡ raise registry_error)
        × (contains (ids (clear classes)) id ≡ false)
  unfolding ids clear resolve sorted_set keys
  contains-ids classes id =
      let listed = contains-sorted_set (keys classes) id ∙ keys-has_key classes id in
      elim (Option-cases (lookup classes id)) [
        | inl missing ↦ (
          λ h. absurd (ground (arith, h, listed, missing)),
          λ h. rw (missing, resolve) refl,
          refl,
        )
        | inr (klass, found) ↦ (
          λ h. (klass, rw (found, resolve) refl),
          λ h. absurd (ground (arith, h, listed, found)),
          refl,
        )
      ]
