-- ===== src/Base/Dicts.antt =====
-- Python's `dict` with `str` keys: an association list in insertion order.
use Prim.Native.String.{String}
use mathlib.Core.Path.{◌≡◌, refl}
use mathlib.Core.Bool.{Bool, false}
use mathlib.Core.Option.{Option, none, some}
use mathlib.Core.List.{List, [], ◌∷◌}
use native.Mathlib.Omega.{arith}
use text.Mathlib.Text.{◌==◌}
use text.Mathlib.TextEquality.{eq_iff}
use ss_prep.Base.Tests.{if◌then◌else◌, is_some, contains}

abbrev pub Dict {ℓ} : Type ℓ → Type ℓ
Dict V = List (String × V)

module _ {ℓ} {V : Type ℓ} where
  unfoldable pub lookup : Dict V → String → Option V
  lookup [] k = none
  lookup ((j, v) ∷ d) k = if j == k then some v else lookup d k

  -- `d[k] = v`: an old key keeps its place.
  unfoldable pub insert : String → V → Dict V → Dict V
  insert k v [] = (k, v) ∷ []
  insert k v ((j, w) ∷ d) = if j == k then (j, v) ∷ d else (j, w) ∷ insert k v d

  abbrev pub has_key : Dict V → String → Bool
  has_key d k = is_some (lookup d k)

  -- `d.update(other)`.
  unfoldable pub update : Dict V → Dict V → Dict V
  update d [] = d
  update d ((k, v) ∷ other) = update (insert k v d) other

  unfoldable pub keys : Dict V → List String
  keys [] = []
  keys ((k, v) ∷ d) = k ∷ keys d

  unfoldable pub values : Dict V → List V
  values [] = []
  values ((k, v) ∷ d) = v ∷ values d

  pub lookup-insert :
      (k j : String) (v : V) (d : Dict V)
      → lookup (insert k v d) j ≡ (if k == j then some v else lookup d j)
  unfolding lookup insert
  lookup-insert k j v [] = refl
  lookup-insert k j v ((i, w) ∷ d) =
      ground (arith, eq_iff k j, eq_iff i k, eq_iff i j, lookup-insert k j v d)

  pub keys-has_key : (d : Dict V) (k : String) → contains (keys d) k ≡ has_key d k
  unfolding lookup keys
  keys-has_key [] k = refl
  keys-has_key ((j, v) ∷ d) k = ground (arith, keys-has_key d k)

  -- No key occurs twice: an association list that stands for a `dict`.
  abbrev pub IsDict : Dict V → Type 0
  IsDict [] = Unit
  IsDict ((k, v) ∷ d) = (has_key d k ≡ false) × IsDict d

  pub lookup-update :
      (d other : Dict V) (k : String)
      → IsDict other
      → lookup (update d other) k ≡ (if has_key other k then lookup other k else lookup d k)
  unfolding update lookup
  lookup-update d [] k h = refl
  lookup-update d ((j, v) ∷ other) k h =
      ground (arith, eq_iff j k, lookup-update (insert j v d) other k h.1, lookup-insert j k v d)
