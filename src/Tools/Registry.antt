-- ===== src/Tools/Registry.antt =====
-- tool_registry.go: tools by name, in the order of their registration. A tool is its name, which does
-- not change, its description, and the schema of one that is structured; `handle` tells tools apart.
use go_rag_agent.Base.{
  Bool, true, false, List, [], ◌∷◌, ◌++◌, ℕ, Option, none, some, if◌then◌else◌, Text, is_empty, map,
  Map, find, put,
}
use go_rag_agent.Tools.Schema.{ToolSchema}

pub record Tool : Type 0 where
  pub handle : ℕ
  pub name : Text
  pub description : Text
  pub structured : Option ToolSchema

pub record ToolRegistry : Type 0 where
  pub tools : Map Tool
  pub order : List Text

pub data RegisterError : Type 0 where
  tool_is_nil name_required : RegisterError
  already_registered : Text → RegisterError

abbrev pub empty_registry : ToolRegistry
empty_registry = record { tools = []; order = [] }

abbrev pub is_some {ℓ} : {A : Type ℓ} → Option A → Bool
is_some none = false
is_some (some a) = true

-- `Register`; a nil tool is `none`
unfoldable pub register : ToolRegistry → Option Tool → ToolRegistry × Option RegisterError
register r none = (r, some tool_is_nil)
register r (some tool) =
    if is_empty tool.name
    then (r, some name_required)
    else if is_some (find tool.name r.tools)
    then (r, some (already_registered tool.name))
    else (record { tools = put tool.name tool r.tools; order = r.order ++ tool.name ∷ [] }, none)

unfoldable pub register_or_replace :
    ToolRegistry → Option Tool → ToolRegistry × Option RegisterError
register_or_replace r none = (r, some tool_is_nil)
register_or_replace r (some tool) = if is_empty tool.name then (r, some name_required) else (
  record {
    tools = put tool.name tool r.tools;
    order = if is_some (find tool.name r.tools) then r.order else r.order ++ tool.name ∷ [];
  },
  none,
)

-- the loop of `NewToolRegistry`, which drops the errors
unfoldable pub register_all : ToolRegistry → List (Option Tool) → ToolRegistry
register_all r [] = r
register_all r (none ∷ ts) = register_all r ts
register_all r (some tool ∷ ts) = register_all (register r (some tool)).0 ts

unfoldable pub new_tool_registry : List (Option Tool) → ToolRegistry
unfolding register_all
new_tool_registry ts = register_all empty_registry ts

unfoldable pub lookup_tool : Text → ToolRegistry → Option Tool
lookup_tool name r = find name r.tools

-- `Tools`; a name with no tool would give a nil
unfoldable pub registered_tools : ToolRegistry → List (Option Tool)
registered_tools r = map (λ name. find name r.tools) r.order
