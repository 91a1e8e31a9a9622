-- ===== src/Repository.antt =====
-- mw_task_repository/mw_task_repository/repo_node.py: the store of SubJob specs.
-- The directory is two dictionaries, from the stems of its `.json` and of its `.xml` files to their
-- texts. `json.loads`, `str.strip`, and the newlines of a text file are parameters.
pub mod Laws
pub mod Dispatch
pub mod Node
mod Tests
use text.Mathlib.Text.{find?}
use ss_prep.Base.{
  String, Bool, true, false, not, ◌&&◌, Option, none, some, List, [], ◌++◌, ◌==◌, if◌then◌else◌,
  is_some, Dict, lookup, insert, has_key, keys, Value, dict, to_dict,
}
use ss_prep.Engine.Parallel.{sorted_set}

pub record Files : Type 0 where
  pub json_files : Dict String
  pub xml_files : Dict String

-- `read` is what reading a file gives for the text that was written: newlines of other systems are
-- translated.
pub record Tools : Type 0 where
  pub strip : String → String
  pub loads : String → Option Value
  pub read : String → String

pub record SaveRequest : Type 0 where
  pub task_id : String
  pub xml_content : String
  pub commit_message : String

-- `Path(task_id).name` is `task_id`, and not empty: the last part of a path is the path only for a
-- text with no slash, and the path of a single dot has no parts.
unfoldable pub is_safe : String → Bool
is_safe id = not (id == "") && not (is_some (find? id "/")) && not (id == ".")

unfoldable pub load_path : Files → String → Option String
load_path f id = elim (lookup f.json_files id) [
  | some text ↦ some text
  | none ↦ lookup f.xml_files id
]

-- `_load_cb`: the content of a successful response.
unfoldable pub load : Tools → Files → String → Option String
unfolding is_safe load_path
load t f id =
    if is_safe id
    then elim (load_path f id) [ none ↦ none | some text ↦ some (t.read text) ]
    else none

-- `isinstance(parsed, dict) and 'kind' in parsed`.
unfoldable pub has_kind : Value → Bool
has_kind (dict fs) = has_key (to_dict fs) "kind"
has_kind _ = false

unfoldable pub is_spec : Tools → String → Bool
unfolding has_kind
is_spec t content =
    if t.strip content == ""
    then false
    else elim (t.loads (t.strip content)) [ none ↦ false | some v ↦ has_kind v ]

unfoldable pub write : String → String → Files → Files
write id content f = record f { json_files = insert id content f.json_files }

-- `_list_cb`.
unfoldable pub list_tasks : Files → List String
unfolding sorted_set
list_tasks f = sorted_set (keys f.json_files ++ keys f.xml_files)
