-- ===== src/Executor/Builder.antt =====
-- hfsm_executor_node.py: how a goal's texts are read, and how its SubJob is built.
use ss_prep.Base.{
  ℕ, zero, suc, String, Bool, true, false, is_some, Option, none, some, [], ◌==◌, if◌then◌else◌,
  Dict, Value, dict, to_dict, of_dict, Exc, hfsm_error, type_error, Result, ok, raise, then_do,
}
use ss_prep.Engine.Registry.{Class, resolve}
use ss_prep.Engine.Tree.{State}
use ss_prep.Engine.SubJob.{as_behavior}
use ss_prep.Engine.Spec.Readers.{built, raised, off_schema}
use ss_prep.Engine.Spec.Build.{build_from_spec}
use ss_prep.Skill.Future.{is_done, sooner}

-- A response of the repository's `load_task`.
pub record LoadResponse : Type 0 where
  pub success : Bool
  pub xml_content : String

-- `loads` and `dumps` are the JSON module's, `str_of` and `repr_of` the texts of an exception. `off_schema`
-- is what the spec loader makes of a spec with a value whose type the schema does not allow. `reply` has after how many polls the future is done, and what its `result()` gives.
pub record Env : Type 0 where
  pub strip : String → String
  pub loads : String → Option Value
  pub dumps : Value → Result String
  pub str_of : Exc → String
  pub repr_of : Exc → String
  pub classes : Dict (Class State)
  pub service_up : Bool
  pub reply : String → Option ℕ × Result (Option LoadResponse)
  pub off_schema : Value → Result State
  pub now : ℕ

-- 3.0 seconds in polls of 0.02.
abbrev pub load_polls : ℕ
load_polls = 150

unfoldable pub as_dict : Value → Dict Value
as_dict (dict fs) = to_dict fs
as_dict _ = []

-- Whether the future is done by the deadline.
unfoldable pub poll_reply : ℕ → Option ℕ → Bool
unfolding is_done sooner
poll_reply zero ready = is_done ready
poll_reply (suc left) ready = elim (is_done ready) [
  | true ↦ true
  | false ↦ poll_reply left (sooner ready)
]

module _ (env : Env) where
  unfoldable pub safe_json_loads : String → Dict Value
  unfolding as_dict
  safe_json_loads s =
      if env.strip s == ""
      then []
      else elim (env.loads (env.strip s)) [ none ↦ [] | some v ↦ as_dict v ]

  abbrev pub dumps : Dict Value → Result String
  dumps d = env.dumps (dict (of_dict d))

  -- `build_from_spec(spec, node=self)`.
  unfoldable pub load_spec : Value → Result State
  unfolding build_from_spec
  load_spec spec = elim (build_from_spec env.classes true spec) [
    | built s ↦ ok s
    | raised e ↦ raise e
    | off_schema ↦ env.off_schema spec
  ]

  -- From the text of a spec on.
  unfoldable pub build_loaded : String → Result (Option State)
  unfolding load_spec as_behavior
  build_loaded text = elim (env.loads text) [
    | none ↦ raise hfsm_error
    | some spec ↦
        then_do (load_spec spec)
          (λ s. if is_some (as_behavior s) then ok (some s) else raise hfsm_error)
  ]

  unfoldable pub loaded : Option LoadResponse → Result (Option State)
  unfolding build_loaded
  loaded none = ok none
  loaded (some r) = if r.success then build_loaded r.xml_content else ok none

  unfoldable pub load_spec_from_repository : String → Result (Option State)
  unfolding poll_reply loaded
  load_spec_from_repository id =
      if env.service_up
      then (let (ready, response) = env.reply id in
          if poll_reply load_polls ready then then_do response loaded else ok none)
      else ok none

  -- `klass(node=self)`, and `klass()` after a `TypeError`.
  unfoldable pub construct_with_node : Class State → Result State
  construct_with_node klass = elim (klass.construct true []) [
    | ok b ↦ ok b
    | raise type_error ↦ klass.construct false []
    | raise e ↦ raise e
  ]

  unfoldable pub build_subjob : String → Result State
  unfolding resolve construct_with_node load_spec_from_repository
  build_subjob id = elim (resolve env.classes id) [
    | ok klass ↦ if klass.is_behavior then construct_with_node klass else raise hfsm_error
    | raise e ↦
        then_do (load_spec_from_repository id) (elim [ none ↦ raise hfsm_error | some b ↦ ok b ])
  ]
