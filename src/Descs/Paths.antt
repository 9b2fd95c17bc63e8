-- ===== src/Descs/Paths.antt =====
-- The names and the mappings of the descriptions are the paths of the fields.
use mathlib.Core.List.{append_assoc, map-append}
use dae_wing.Base.{
  ◌≡◌, refl, ap, sym, ◌∙◌, Bool, true, false, List, [], ◌∷◌, ◌++◌, map, Text, if◌then◌else◌,
}
use dae_wing.Descs.{
  Tags, GoType, Fields, FlatDesc, Desc, dotted, next_source, described, export_struct, children,
  children_elem, children_bare, export_flat_desc,
}

-- the paths from a struct to its fields and the fields of its fields, each before its own, with what
-- `label` says of a field on the way; a struct of another package is not entered
unfoldable mutual
  pub paths : (Text → Tags → Text) → Fields → List Text
  paths label Fields.end = []
  paths label (Fields.field name tags t rest) =
      label name tags
      ∷ (map (λ p. dotted (label name tags) ++ p) (paths_in label t) ++ paths label rest)

  pub paths_in : (Text → Tags → Text) → GoType → List Text
  paths_in label (GoType.plain s) = []
  paths_in label (GoType.slice s t) = paths_elem label t
  paths_in label (GoType.pointer s t) = paths_bare label t
  paths_in label (GoType.struct s inside fs) = if inside then paths label fs else []

  pub paths_elem : (Text → Tags → Text) → GoType → List Text
  paths_elem label (GoType.plain s) = []
  paths_elem label (GoType.slice s t) = []
  paths_elem label (GoType.pointer s t) = paths_bare label t
  paths_elem label (GoType.struct s inside fs) = if inside then paths label fs else []

  pub paths_bare : (Text → Tags → Text) → GoType → List Text
  paths_bare label (GoType.plain s) = []
  paths_bare label (GoType.slice s t) = []
  paths_bare label (GoType.pointer s t) = []
  paths_bare label (GoType.struct s inside fs) = if inside then paths label fs else []

prefix-prefix :
    (a b : Text) (l : List Text)
    → map (λ p. (a ++ b) ++ p) l ≡ map (λ p. a ++ p) (map (λ p. b ++ p) l)
prefix-prefix a b [] = refl
prefix-prefix a b (p ∷ l) =
    ap (λ x. x ∷ map (λ p. (a ++ b) ++ p) l) (append_assoc a b p)
    ∙ ap (λ r. (a ++ (b ++ p)) ∷ r) (prefix-prefix a b l)

-- one of the two texts of a description, with its prefix and what it says of a field
record Column : Type 0 where
  see : FlatDesc → Text
  pick : Text → Text → Text
  label : Text → Tags → Text
  see-described :
      (n m name : Text) (tags : Tags) (t : GoType) (source : Desc)
      → see (described n m name tags t source) ≡ pick n m ++ label name tags
  pick-dotted :
      (n m name : Text) (tags : Tags)
      → pick (n ++ dotted name) (m ++ dotted tags.mapstructure)
        ≡ pick n m ++ dotted (label name tags)

abbrev under : Text → List Text → List Text
under a = map (λ p. a ++ p)

module _ (sections : Text → Desc) (C : Column) where
  mutual
    unfolding export_struct paths

    export_struct-paths :
        (n m : Text) (fs : Fields) (source : Desc) (inherits : Bool)
        → map C.see (export_struct sections n m fs source inherits)
          ≡ under (C.pick n m) (paths C.label fs)
    export_struct-paths n m Fields.end source inherits = refl
    export_struct-paths n m (Fields.field name tags t rest) source inherits =
        let a = C.pick n m in
        let b = dotted (C.label name tags) in
        let inner =
          children sections (n ++ dotted name) (m ++ dotted tags.mapstructure) t
            (next_source sections source inherits tags) in
        let later = export_struct sections n m rest source inherits in
        let below : map C.see inner ≡ under a (under b (paths_in C.label t)) =
          children-paths (n ++ dotted name) (m ++ dotted tags.mapstructure) t
            (next_source sections source inherits tags)
          ∙ ap (λ x. under x (paths_in C.label t)) (C.pick-dotted n m name tags)
          ∙ prefix-prefix a b (paths_in C.label t) in
        ap (λ x. x ∷ map C.see (inner ++ later)) (C.see-described n m name tags t source)
        ∙ ap (λ l. (a ++ C.label name tags) ∷ l)
            (map-append C.see inner later
              ∙ ap (λ l. l ++ map C.see later) below
              ∙ ap (λ l. under a (under b (paths_in C.label t)) ++ l)
                  (export_struct-paths n m rest source inherits)
              ∙ sym (map-append (λ p. a ++ p) (under b (paths_in C.label t)) (paths C.label rest)))

    children-paths :
        (n m : Text) (t : GoType) (source : Desc)
        → map C.see (children sections n m t source) ≡ under (C.pick n m) (paths_in C.label t)
    children-paths n m (GoType.plain s) source = refl
    children-paths n m (GoType.slice s t) source = children_elem-paths n m t source
    children-paths n m (GoType.pointer s t) source = children_bare-paths n m t source
    children-paths n m (GoType.struct s true fs) source = export_struct-paths n m fs source true
    children-paths n m (GoType.struct s false fs) source = refl

    children_elem-paths :
        (n m : Text) (t : GoType) (source : Desc)
        → map C.see (children_elem sections n m t source)
          ≡ under (C.pick n m) (paths_elem C.label t)
    children_elem-paths n m (GoType.plain s) source = refl
    children_elem-paths n m (GoType.slice s t) source = refl
    children_elem-paths n m (GoType.pointer s t) source = children_bare-paths n m t source
    children_elem-paths n m (GoType.struct s true fs) source =
        export_struct-paths n m fs source true
    children_elem-paths n m (GoType.struct s false fs) source = refl

    children_bare-paths :
        (n m : Text) (t : GoType) (source : Desc)
        → map C.see (children_bare sections n m t source)
          ≡ under (C.pick n m) (paths_bare C.label t)
    children_bare-paths n m (GoType.plain s) source = refl
    children_bare-paths n m (GoType.slice s t) source = refl
    children_bare-paths n m (GoType.pointer s t) source = refl
    children_bare-paths n m (GoType.struct s true fs) source =
        export_struct-paths n m fs source true
    children_bare-paths n m (GoType.struct s false fs) source = refl

abbrev names : Column
names = record {
  see = λ d. d.name;
  pick = λ n m. n;
  label = λ name tags. name;
  see-described = λ n m name tags t source. refl;
  pick-dotted = λ n m name tags. refl;
}

abbrev mappings : Column
mappings = record {
  see = λ d. d.mapping;
  pick = λ n m. m;
  label = λ name tags. tags.mapstructure;
  see-described = λ n m name tags t source. refl;
  pick-dotted = λ n m name tags. refl;
}

under-nothing : (l : List Text) → under [] l ≡ l
under-nothing [] = refl
under-nothing (p ∷ l) = ap (λ r. p ∷ r) (under-nothing l)

-- `ExportFlatDesc` describes each field of the configuration and of the structs in it once, a field
-- before those of its struct: the names are the paths of the fields by their names, and the mappings
-- the same paths by the tag `mapstructure`, for every tree of types and all texts of descriptions.
pub export_flat_desc-paths :
    (sections : Text → Desc) (fs : Fields) (summary : Desc)
    → (map (λ d. d.name) (export_flat_desc sections fs summary) ≡ paths (λ name tags. name) fs)
      × (map (λ d. d.mapping) (export_flat_desc sections fs summary)
          ≡ paths (λ name tags. tags.mapstructure) fs)
unfolding export_flat_desc
export_flat_desc-paths sections fs summary = (
  export_struct-paths sections names [] [] fs summary false ∙ under-nothing (paths names.label fs),
  export_struct-paths sections mappings [] [] fs summary false
      ∙ under-nothing (paths mappings.label fs),
)
