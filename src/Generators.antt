-- ===== src/Generators.antt =====
-- The three programs that go over the fields of dae's global section: the generators of its input
-- and of its resolver, graphql/service/config/global/generator/input/input.go and
-- generator/resolver/resolver.go, and its GraphQL schema, graphql/service/config/global/schema.go.
-- What reflection says of a field is an argument, as is what go-strcase makes of a name.
pub mod Agree
use dae_wing.Base.{
  ℕ, zero, suc, Bool, true, false, Option, none, some, List, [], ◌∷◌, ◌++◌, Text, codes,
  if◌then◌else◌, Result, ok, err, Error,
}

-- the Go types that the switches tell apart
pub data Kind : Type 0 where
  integer text boolean texts duration other : Kind

-- reflect.StructField, with its tag `mapstructure`
pub record Field : Type 0 where
  pub name : Text
  pub type_text : Text
  pub kind : Kind
  pub mapstructure : Option Text

-- go-strcase
pub record Cases : Type 0 where
  pub upper_camel : Text → Text
  pub lower_camel : Text → Text

abbrev tabs : ℕ → Text
tabs zero = []
tabs (suc depth) = 9 ∷ tabs depth

abbrev pub quoted : Text → Text
quoted s = 34 ∷ (s ++ 34 ∷ [])

-- WriteLine
unfoldable pub write_line : ℕ → Text → Text → Text
write_line depth line b = b ++ (tabs depth ++ (line ++ codes "\n"))

-- the method Marshal of the generated input
unfoldable pub marshal_method : Text
marshal_method =
    codes "\nfunc (i *Input) Marshal() (string, error) {\n"
    ++ (codes "\t\t\tvar g daeConfig.Global\n\t\t\ti.Assign(&g)\n"
        ++ (codes "\t\t\tmarshaller := daeConfig.Marshaller{\n\t\t\t\tIgnoreZero: true,\n\t\t\t}\n"
            ++ (codes "\t\t\tif err := marshaller.MarshalSection("
                ++ (quoted (codes "global")
                    ++ (codes ", reflect.ValueOf(g), 0); err != nil {\n\t\t\t\treturn "
                        ++ (quoted []
                            ++ codes
                                ", err\n\t\t\t}\n\t\t\treturn string(marshaller.Bytes()), nil\n}"))))))

-- the two texts of the builder of inputs, of the struct and of the method
pub record Builder : Type 0 where
  pub st : Text
  pub me : Text

abbrev write_struct_line : ℕ → Text → Builder → Builder
write_struct_line depth line b = record b { st = write_line depth line b.st }

-- WriteMethodLine
unfoldable pub write_method_line : ℕ → Text → Builder → Builder
write_method_line depth line b = record b { me = write_line depth line b.me }

module _ (C : Cases) where
  -- WriteField
  unfoldable pub write_field : Text → Text → Builder → Builder
  write_field name ret b = write_struct_line 1 (C.upper_camel name ++ (codes "\t*" ++ ret)) b

  abbrev guarded_assignment : Text → Text → Text → Builder → Builder
  guarded_assignment field name right b = write_method_line 1 (codes "}") (
      write_method_line 2 (codes "g." ++ (field ++ (codes " = " ++ right)))
        (write_method_line 1 (codes "if i." ++ (C.upper_camel name ++ codes " != nil {")) b))

  -- WriteMethodTransform
  unfoldable pub write_method_transform : Text → Text → Text → Bool → Builder → Builder
  write_method_transform field name ret cast b =
      guarded_assignment field name
        (if cast
          then ret ++ (codes "(*i." ++ (C.upper_camel name ++ codes ")"))
          else codes "*i." ++ C.upper_camel name)
        b

  -- WriteMethodScalar
  unfoldable pub write_method_scalar : Text → Text → Text → Builder → Builder
  write_method_scalar field name scalar b =
      guarded_assignment field name (codes "i." ++ (C.upper_camel name ++ (codes "." ++ scalar))) b

  abbrev transformed : Field → Text → Text → Bool → Builder → Builder
  transformed f name ret cast b =
      write_method_transform f.name name f.type_text cast (write_field name ret b)

  -- one case of the switch of the generator of inputs
  abbrev input_field : Field → Text → Kind → Builder → Result Builder
  input_field f name Kind.integer b = ok (transformed f name (codes "int32") true b)
  input_field f name Kind.text b = ok (transformed f name f.type_text false b)
  input_field f name Kind.boolean b = ok (transformed f name f.type_text false b)
  input_field f name Kind.texts b = ok (transformed f name f.type_text false b)
  input_field f name Kind.duration b = ok (
      write_method_scalar f.name name (codes "Duration")
        (write_field name (codes "scalar.Duration") b))
  input_field f name Kind.other b = err (Error.unknown_type f.type_text)

  abbrev pub input_step : Field → Option Text → Builder → Result Builder
  input_step f none b = err (Error.no_mapstructure f.name)
  input_step f (some name) b = input_field f name f.kind b

  -- the loop of Build of the generator of inputs
  unfoldable pub input_fields : List Field → Builder → Result Builder
  input_fields [] b = ok b
  input_fields (f ∷ fs) b = elim (input_step f f.mapstructure b) [
    | err e ↦ err e
    | ok b' ↦ input_fields fs b'
  ]

  -- the lines around the fields
  abbrev pub input_head : Text → Builder
  input_head pkg = write_method_line 0 (codes "func (i *Input) Assign(g *daeConfig.Global) {") (
      write_struct_line 0 (codes "type Input struct {") (
        write_struct_line 0
          (codes "import daeConfig " ++ quoted (codes "github.com/daeuniverse/dae/config"))
          (write_struct_line 0
            (codes "import " ++ quoted (codes "github.com/daeuniverse/dae-wing/graphql/scalar"))
            (write_struct_line 0 (codes "import " ++ quoted pkg) (
              write_struct_line 0 (codes "package global\n") (
                write_struct_line 0 (codes "// Generated code; DO NOT EDIT.\n")
                  (record { st = []; me = [] })))))))

  abbrev pub input_text : Builder → Text
  input_text b =
      let b' =
        write_method_line 0 marshal_method
          (write_method_line 0 (codes "}") (write_struct_line 0 (codes "}") b)) in
      b'.st ++ (codes "\n" ++ b'.me)

  -- Build of the generator of inputs
  unfoldable pub build_input : Text → List Field → Result Text
  build_input pkg fs = elim (input_fields fs (input_head pkg)) [
    | err e ↦ err e
    | ok b ↦ ok (input_text b)
  ]

  -- WriteFunc
  unfoldable pub write_func : Text → Text → Text → Bool → Text → Text
  write_func field name ret cast b = write_line 0 (codes "}\n") (
      write_line 1
        (if cast
          then codes "return " ++ (ret ++ (codes "(r.Global." ++ (field ++ codes ")")))
          else codes "return r.Global." ++ field)
        (write_line 0
          (codes "func (r *Resolver) "
            ++ (C.upper_camel name ++ (codes "() " ++ (ret ++ codes " {"))))
          b))

  -- WriteMarshalFunc
  unfoldable pub write_marshal_func : Text → Text → Text → Text → Text
  write_marshal_func field name ret b = write_line 0 (codes "}\n") (
      write_line 1 (codes "return tmp") (
        write_line 1 (codes "_ = tmp.UnmarshalGraphQL(r.Global." ++ (field ++ codes ")")) (
          write_line 1 (codes "var tmp " ++ ret) (
            write_line 0
              (codes "func (r *Resolver) "
                ++ (C.upper_camel name ++ (codes "() " ++ (ret ++ codes " {"))))
              b))))

  abbrev resolver_field : Field → Text → Kind → Text → Result Text
  resolver_field f name Kind.integer b = ok (write_func f.name name (codes "int32") true b)
  resolver_field f name Kind.text b = ok (write_func f.name name f.type_text false b)
  resolver_field f name Kind.boolean b = ok (write_func f.name name f.type_text false b)
  resolver_field f name Kind.texts b = ok (write_func f.name name f.type_text false b)
  resolver_field f name Kind.duration b =
      ok (write_marshal_func f.name name (codes "scalar.Duration") b)
  resolver_field f name Kind.other b = err (Error.unknown_type f.type_text)

  abbrev pub resolver_step : Field → Option Text → Text → Result Text
  resolver_step f none b = err (Error.no_mapstructure f.name)
  resolver_step f (some name) b = resolver_field f name f.kind b

  -- the loop of Build of the generator of resolvers
  unfoldable pub resolver_fields : List Field → Text → Result Text
  resolver_fields [] b = ok b
  resolver_fields (f ∷ fs) b = elim (resolver_step f f.mapstructure b) [
    | err e ↦ err e
    | ok b' ↦ resolver_fields fs b'
  ]

  -- Build of the generator of resolvers
  unfoldable pub build_resolver : Text → List Field → Result Text
  build_resolver pkg fs = resolver_fields fs (
      write_line 0 (codes "type Resolver struct {\n\t*daeConfig.Global\n}") (
        write_line 0
          (codes "import " ++ quoted (codes "github.com/daeuniverse/dae-wing/graphql/scalar"))
          (write_line 0 (codes "import " ++ quoted pkg) (
            write_line 0 (codes "package global\n")
              (write_line 0 (codes "// Generated code; DO NOT EDIT.\n") [])))))

  -- the type of a field in the schema
  abbrev schema_type : Kind → Option Text
  schema_type Kind.integer = some (codes ": Int")
  schema_type Kind.text = some (codes ": String")
  schema_type Kind.duration = some (codes ": Duration")
  schema_type Kind.boolean = some (codes ": Boolean")
  schema_type Kind.texts = some (codes ": [String!]")
  schema_type Kind.other = none

  abbrev schema_field : Text → Field → Text → Option Text → Text → Result Text
  schema_field mark f name none b = err (Error.unknown_type f.type_text)
  schema_field mark f name (some ty) b = ok (write_line 1 (C.lower_camel name ++ (ty ++ mark)) b)

  abbrev pub schema_step : Text → Field → Option Text → Text → Result Text
  schema_step mark f none b = err (Error.no_mapstructure f.name)
  schema_step mark f (some name) b = schema_field mark f name (schema_type f.kind) b

  -- the loop of Build of the schema
  unfoldable pub schema_fields : Text → List Field → Text → Result Text
  schema_fields mark [] b = ok b
  schema_fields mark (f ∷ fs) b = elim (schema_step mark f f.mapstructure b) [
    | err e ↦ err e
    | ok b' ↦ schema_fields mark fs b'
  ]

  -- Build of the schema, with `Head` and `NotNullString`
  unfoldable pub build_schema : Text → Text → List Field → Result Text
  build_schema head mark fs = elim (schema_fields mark fs (write_line 0 (head ++ codes " {") [])) [
    | err e ↦ err e
    | ok b ↦ ok (write_line 0 (codes "}") b)
  ]

  -- Schema
  unfoldable pub global_schema : List Field → Result Text
  global_schema fs = elim (build_schema (codes "type Global") (codes "!") fs) [
    | err e ↦ err e
    | ok t ↦ elim (build_schema (codes "input globalInput") [] fs) [
      | err e ↦ err e
      | ok i ↦ ok (t ++ (codes "\n" ++ i))
    ]
  ]
