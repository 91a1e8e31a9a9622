-- ===== src/Engine/Spec/Readers.antt =====
-- spec_loader.py: how the loader reads the fields of a spec. The engine's types hold texts only, so
-- what Python makes of a value whose type the schema does not allow is left open: `off_schema`.
use ss_prep.Base.{
  String, true, false, Option, none, some, List, [], ◌∷◌, ◌==◌, if◌then◌else◌, Dict, Value, null,
  str, list, dict, Items, nil, cons, Fields, end, field, to_dict, truthy, Exc, Result, ok, raise,
}

pub data Loaded (A : Type 0) : Type 0 where
  built : A → Loaded A
  raised : Exc → Loaded A
  off_schema : Loaded A

module _ {A B : Type 0} where
  -- The rest of a function, after a step that may fail.
  abbrev pub then_load : Loaded A → (A → Loaded B) → Loaded B
  then_load (built a) f = f a
  then_load (raised e) f = raised e
  then_load off_schema f = off_schema

abbrev pub of_result : {A : Type 0} → Result A → Loaded A
of_result (ok a) = built a
of_result (raise e) = raised e

-- `spec.get(key)`; `none` for a missing key.
unfoldable pub at : Fields → String → Option Value
at end key = none
at (field k v fs) key = elim (k == key) [ true ↦ some v | false ↦ at fs key ]

abbrev pub if_truthy : Value → Option Value
if_truthy v = if truthy v then some v else none

-- `spec.get(key) or …`: `none` where the default is taken.
unfoldable pub given : Fields → String → Option Value
unfolding at
given fs key = elim (at fs key) [ none ↦ none | some v ↦ if_truthy v ]

-- A list of texts.
unfoldable pub texts : Items → Loaded (List String)
texts nil = built []
texts (cons (str s) xs) = then_load (texts xs) (λ ss. built (s ∷ ss))
texts (cons v xs) = off_schema

unfoldable pub mapping : Fields → Loaded (Dict String)
mapping end = built []
mapping (field k (str s) fs) = then_load (mapping fs) (λ d. built ((k, s) ∷ d))
mapping (field k v fs) = off_schema

-- `list(spec.get(key) or default)`.
unfoldable pub read_texts : List String → Option Value → Loaded (List String)
unfolding texts
read_texts default none = built default
read_texts default (some (list xs)) = texts xs
read_texts default (some v) = off_schema

-- `dict(value or {})`, for a dictionary of texts.
unfoldable pub read_mapping : Option Value → Loaded (Dict String)
unfolding mapping
read_mapping none = built []
read_mapping (some (dict fs)) = mapping fs
read_mapping (some v) = off_schema

-- `dict(spec.get('args') or {})`.
unfoldable pub read_args : Option Value → Loaded (Dict Value)
read_args none = built []
read_args (some (dict fs)) = built (to_dict fs)
read_args (some v) = off_schema

-- `spec.get('initial_state')`.
unfoldable pub read_initial : Option Value → Loaded (Option String)
read_initial none = built none
read_initial (some null) = built none
read_initial (some (str s)) = built (some s)
read_initial (some v) = off_schema

-- `transitions.get(name, {})` of `spec.get('transitions') or {}`, as `add` takes it.
unfoldable pub read_route : Option Value → String → Loaded (Dict String)
unfolding given read_mapping
read_route none name = built []
read_route (some (dict ts)) name = read_mapping (given ts name)
read_route (some v) name = off_schema

pub data Kind : Type 0 where
  state_kind machine_kind behavior_kind parallel_kind unknown_kind : Kind

unfoldable pub named_kind : String → Kind
named_kind k =
    if k == "State"
    then state_kind
    else if k == "StateMachine"
    then machine_kind
    else if k == "BehaviorSM"
    then behavior_kind
    else if k == "Parallel"
    then parallel_kind
    else unknown_kind

-- `spec.get('kind', 'State')`, by the tests that follow it.
unfoldable pub kind_of : Option Value → Kind
unfolding named_kind
kind_of none = state_kind
kind_of (some (str k)) = named_kind k
kind_of (some v) = unknown_kind
