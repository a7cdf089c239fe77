-- ===== src/Tools/Schema.antt =====
-- structured_tool.go: schemas of tool arguments and their validation. A schema without a type is one
-- of a string, as in the source; an error names the argument and its kind.
use go_rag_agent.Base.{
  Bool, false, not, ◌&&◌, List, [], ◌∷◌, ℕ, Option, none, some, if◌then◌else◌, Text, text_eq,
  is_empty, any, ltb, length, Map, find,
}

-- A float64 by its place in the order of the floats. Neither a NaN nor an infinity is finite.
pub record Number : Type 0 where
  pub order : ℕ
  pub finite : Bool

-- what encoding/json decodes; what stands inside an object or an array plays no role here
pub data Value : Type 0 where
  null object array : Value
  text : Text → Value
  number : Number → Value
  boolean : Bool → Value

abbrev pub Arguments : Type 0
Arguments = Map Value

pub data ParameterType : Type 0 where
  string_type number_type boolean_type object_type array_type unknown_type : ParameterType

pub record ParameterSchema : Type 0 where
  pub type_of : ParameterType
  pub enumeration : List Text
  pub min_length : ℕ
  pub max_length : ℕ
  pub minimum : Option Number
  pub maximum : Option Number

pub record ToolSchema : Type 0 where
  pub properties : Map ParameterSchema
  pub required : List Text

pub data Invalid : Type 0 where
  missing : Text → Invalid
  not_string not_number not_boolean not_object not_array unsupported : Text → Invalid
  too_short too_long not_listed too_small too_large : Text → Invalid

unfoldable pub validate_text : Text → ParameterSchema → Text → Option Invalid
validate_text name p s =
    if ltb 0 p.min_length && ltb (length s) p.min_length
    then some (too_short name)
    else if ltb 0 p.max_length && ltb p.max_length (length s)
    then some (too_long name)
    else if not (is_empty p.enumeration) && not (any (text_eq s) p.enumeration)
    then some (not_listed name)
    else none

unfoldable pub is_under : Number → Option Number → Bool
is_under n none = false
is_under n (some bound) = ltb n.order bound.order

unfoldable pub is_over : Number → Option Number → Bool
is_over n none = false
is_over n (some bound) = ltb bound.order n.order

unfoldable pub validate_number : Text → ParameterSchema → Number → Option Invalid
validate_number name p n =
    if not n.finite
    then some (not_number name)
    else if is_under n p.minimum
    then some (too_small name)
    else if is_over n p.maximum
    then some (too_large name)
    else none

-- the `switch` on the type of the schema
unfoldable pub validate_typed : ParameterType → Text → ParameterSchema → Value → Option Invalid
validate_typed string_type name p (text s) = validate_text name p s
validate_typed string_type name p _ = some (not_string name)
validate_typed number_type name p (number n) = validate_number name p n
validate_typed number_type name p _ = some (not_number name)
validate_typed boolean_type name p (boolean b) = none
validate_typed boolean_type name p _ = some (not_boolean name)
validate_typed object_type name p object = none
validate_typed object_type name p _ = some (not_object name)
validate_typed array_type name p array = none
validate_typed array_type name p _ = some (not_array name)
validate_typed unknown_type name p _ = some (unsupported name)

unfoldable pub validate_tool_argument : Text → ParameterSchema → Value → Option Invalid
unfolding validate_typed
validate_tool_argument name p v = validate_typed p.type_of name p v

-- one round of the loop over the properties; a missing or a null argument is passed over
unfoldable pub validate_property : Text → ParameterSchema → Option Value → Option Invalid
validate_property name p none = none
validate_property name p (some null) = none
validate_property name p (some v) = validate_tool_argument name p v

unfoldable pub or_else : Option Invalid → Option Invalid → Option Invalid
or_else none later = later
or_else (some e) later = some e

unfoldable pub validate_properties : Map ParameterSchema → Arguments → Option Invalid
validate_properties [] args = none
validate_properties (e ∷ ps) args =
    or_else (validate_property e.0 e.1 (find e.0 args)) (validate_properties ps args)

unfoldable pub validate_required : List Text → Arguments → Option Invalid
validate_required [] args = none
validate_required (field ∷ fields) args = elim (find field args) [
  | none ↦ some (missing field)
  | some v ↦ validate_required fields args
]

unfoldable pub validate_tool_arguments : ToolSchema → Arguments → Option Invalid
validate_tool_arguments s args =
    or_else (validate_required s.required args) (validate_properties s.properties args)
