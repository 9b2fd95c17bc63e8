-- ===== src/Descs.antt =====
-- dae/flat_desc.go: the flat list of descriptions of dae's configuration. What reflection says of a
-- struct is a tree; the map of leaves, which is written and never read, is left out.
pub mod Paths
use dae_wing.Base.{Bool, true, false, List, [], ◌∷◌, ◌++◌, Text, codes, if◌then◌else◌}

-- the tags of a field; `Get` gives an empty text where there is none
pub record Tags : Type 0 where
  pub mapstructure : Text
  pub desc : Text
  pub default : Text
  pub required : Bool

-- reflect.Type with its `String()`, and with whether the package of a struct is none or that of the
-- configuration; and the fields of a struct
mutual
  pub data GoType : Type 0 where
    plain : Text → GoType
    slice : Text → GoType → GoType
    pointer : Text → GoType → GoType
    struct : Text → Bool → Fields → GoType

  pub data Fields : Type 0 where
    end : Fields
    field : Text → Tags → GoType → Fields → Fields

-- FlatDesc
pub record FlatDesc : Type 0 where
  pub name : Text
  pub mapping : Text
  pub is_array : Bool
  pub default_value : Text
  pub required : Bool
  pub type_text : Text
  pub desc : Text

-- daeConfig.Desc; a missing key, and a nil map, give an empty text
abbrev pub Desc : Type 0
Desc = Text → Text

abbrev pub is_slice : GoType → Bool
is_slice (GoType.slice s t) = true
is_slice _ = false

abbrev pub pointed : GoType → GoType
pointed (GoType.pointer s t) = t
pointed t = t

-- the element of a slice, and what a pointer points to
abbrev pub elem_type : GoType → GoType
elem_type (GoType.slice s t) = pointed t
elem_type t = pointed t

abbrev pub text_of : GoType → Text
text_of (GoType.plain s) = s
text_of (GoType.slice s t) = s
text_of (GoType.pointer s t) = s
text_of (GoType.struct s inside fs) = s

-- the description of one field
abbrev pub described : Text → Text → Text → Tags → GoType → Desc → FlatDesc
described names mappings name tags t source = record {
  name = names ++ name;
  mapping = mappings ++ tags.mapstructure;
  is_array = is_slice t;
  default_value = tags.default;
  required = tags.required;
  type_text = text_of (elem_type t);
  desc = source tags.mapstructure;
}

-- the source of the descriptions of the children
abbrev pub next_source : (Text → Desc) → Desc → Bool → Tags → Desc
next_source sections source inherits tags = if inherits then source else sections tags.desc

-- `namePrefix + section.Name + "."`
abbrev pub dotted : Text → Text
dotted s = s ++ codes "."

module _ (sections : Text → Desc) where
  -- exportStruct, and its children: those of a field, of the element of a slice, and of a struct
  unfoldable mutual
    pub export_struct : Text → Text → Fields → Desc → Bool → List FlatDesc
    export_struct names mappings Fields.end source inherits = []
    export_struct names mappings (Fields.field name tags t rest) source inherits =
        described names mappings name tags t source
        ∷ (children (names ++ dotted name) (mappings ++ dotted tags.mapstructure) t
              (next_source sections source inherits tags)
            ++ export_struct names mappings rest source inherits)

    pub children : Text → Text → GoType → Desc → List FlatDesc
    children names mappings (GoType.plain s) source = []
    children names mappings (GoType.slice s t) source = children_elem names mappings t source
    children names mappings (GoType.pointer s t) source = children_bare names mappings t source
    children names mappings (GoType.struct s inside fs) source =
        if inside then export_struct names mappings fs source true else []

    pub children_elem : Text → Text → GoType → Desc → List FlatDesc
    children_elem names mappings (GoType.plain s) source = []
    children_elem names mappings (GoType.slice s t) source = []
    children_elem names mappings (GoType.pointer s t) source = children_bare names mappings t source
    children_elem names mappings (GoType.struct s inside fs) source =
        if inside then export_struct names mappings fs source true else []

    pub children_bare : Text → Text → GoType → Desc → List FlatDesc
    children_bare names mappings (GoType.plain s) source = []
    children_bare names mappings (GoType.slice s t) source = []
    children_bare names mappings (GoType.pointer s t) source = []
    children_bare names mappings (GoType.struct s inside fs) source =
        if inside then export_struct names mappings fs source true else []

  -- ExportFlatDesc, on the fields of daeConfig.Config and SectionSummaryDesc
  unfoldable pub export_flat_desc : Fields → Desc → List FlatDesc
  export_flat_desc fs summary = export_struct [] [] fs summary false
