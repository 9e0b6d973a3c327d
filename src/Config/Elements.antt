-- ===== src/Config/Elements.antt =====
-- The elements of a configuration and their attributes, as Core/instance.js looks them up. The
-- parser of XML is a parameter.
use reloadjs.Base.{List, [], ◌∷◌, Option, none, some, if◌then◌else◌, keep, Text, same}

abbrev pub Attributes : Type 0
Attributes = List (Text × Text)

-- An element inside a configuration; its own children are left out.
pub record Element : Type 0 where
  pub name : Text
  pub attributes : Attributes
  pub content : Text

-- An element of the root: a configuration, or the signature behind one.
pub record Section : Type 0 where
  pub name : Text
  pub attributes : Attributes
  pub content : Text
  pub children : List Element

pub record Root : Type 0 where
  pub attributes : Attributes
  pub children : List Section

unfoldable pub raw_attribute : Text → Attributes → Option Text
raw_attribute name [] = none
raw_attribute name ((k, v) ∷ rest) =
    let later = raw_attribute name rest in if same k name then some v else later

-- An attribute that is there and not empty, which is how the program tests for one.
unfoldable pub attribute : Text → Attributes → Option Text
unfolding raw_attribute
attribute name attributes = elim (raw_attribute name attributes) [
  | none ↦ none
  | some v ↦ if same v [] then none else some v
]

-- `d[name]`: the last element of the name.
unfoldable pub last_named : Text → List Element → Option Element
last_named name [] = none
last_named name (e ∷ es) = elim (last_named name es) [
  | some later ↦ some later
  | none ↦ if same e.name name then some e else none
]

abbrev pub named : Text → List Element → List Element
named name elements = keep (λ e. same e.name name) elements

-- `get`: the content of the first element of the name.
unfoldable pub get : Text → List Element → Option Text
get name [] = none
get name (e ∷ es) = let later = get name es in if same e.name name then some e.content else later
