-- ===== src/Repository/Node/Latest.antt =====
-- What the store gives after any requests to save.
use ss_prep.Base.{String, ◌&&◌, Option, none, some, List, [], ◌∷◌, ◌==◌, if◌then◌else◌}
use ss_prep.Repository.{Tools, SaveRequest, is_safe, is_spec}
use ss_prep.Repository.Node.{LoadTaskResponse}

-- The content of a successful response.
abbrev pub content_of : LoadTaskResponse → Option String
content_of p = if p.success then some p.xml_content else none

-- The text, as it is read back, of the last request for this id that holds a spec, or else what was
-- there before.
unfoldable pub latest : Tools → List SaveRequest → String → Option String → Option String
unfolding is_spec is_safe
latest t [] id before = before
latest t (r ∷ rs) id before = latest t rs id (
    if r.task_id == id && is_spec t r.xml_content && is_safe id
    then some (t.read r.xml_content)
    else before)
