-- ===== src/Generators/Agree.antt =====
-- The generators of the input, of the resolver and of the schema take the same structs.
use dae_wing.Base.{
  ◌≡◌, refl, ap, sym, ◌∙◌, inl, inr, Option, none, some, List, [], ◌∷◌, ◌++◌, Text, codes, Result,
  ok, err, Error, Result-cases, arith,
}
use dae_wing.Generators.{
  Kind, Field, Cases, Builder, write_line, input_step, resolver_step, schema_step, input_text,
  input_head, input_fields, build_input, resolver_fields, build_resolver, schema_fields,
  build_schema, global_schema,
}

-- whether a program ends well, and its error
abbrev pub verdict : {A : Type 0} → Result A → Result (Unit {0})
verdict (ok a) = ok tt
verdict (err e) = err e

-- the first field with no tag `mapstructure`, or of a type that GraphQL has no counterpart for
abbrev pub refusal : Field → Option Text → Kind → Result (Unit {0})
refusal f none k = err (Error.no_mapstructure f.name)
refusal f (some name) Kind.other = err (Error.unknown_type f.type_text)
refusal f (some name) k = ok tt

abbrev pub judged : List Field → Result (Unit {0})
judged [] = ok tt
judged (f ∷ fs) = elim (refusal f f.mapstructure f.kind) [ err e ↦ err e | ok u ↦ judged fs ]

-- A loop that ends at the first field that its step refuses has the verdict of the fields.
module _ {B : Type 0} (step : Field → B → Result B) (loop : List Field → B → Result B) where
  abbrev Follows : Type 0
  Follows =
      ((b : B) → loop [] b ≡ ok b)
      × ((f : Field) (fs : List Field) (b : B)
          → loop (f ∷ fs) b ≡ elim (step f b) [ err e ↦ err e | ok b' ↦ loop fs b' ])
      × ((f : Field) (b : B) → verdict (step f b) ≡ refusal f f.mapstructure f.kind)

  loop-judged : Follows → (fs : List Field) (b : B) → verdict (loop fs b) ≡ judged fs
  loop-judged (none_left, one_more, same) [] b = ap verdict (none_left b)
  loop-judged (none_left, one_more, same) (f ∷ fs) b = elim (Result-cases (step f b)) [
    | inr (e, failed) ↦
        let refused : refusal f f.mapstructure f.kind ≡ err e =
          sym (same f b) ∙ ap verdict failed in
        ground (arith, one_more f fs b, failed, refused)
    | inl (b', done) ↦
        let taken : refusal f f.mapstructure f.kind ≡ ok tt = sym (same f b) ∙ ap verdict done in
        let rest = loop-judged (none_left, one_more, same) fs b' in
        ground (arith, one_more f fs b, done, taken, rest)
  ]

verdict-ended :
    {A B : Type 0} (r : Result A) (f : A → B)
    → verdict (elim r as (λ _. Result B) [ err e ↦ err e | ok a ↦ ok (f a) ]) ≡ verdict r
verdict-ended (ok a) f = refl
verdict-ended (err e) f = refl

module _ (C : Cases) where
  input_fields-judged : (fs : List Field) (b : Builder) → verdict (input_fields C fs b) ≡ judged fs
  unfolding input_fields
  input_fields-judged fs b =
      loop-judged (λ f b. input_step C f f.mapstructure b) (input_fields C)
        (λ b. refl, λ f fs b. refl, λ f b. ground arith) fs b

  resolver_fields-judged :
      (fs : List Field) (b : Text) → verdict (resolver_fields C fs b) ≡ judged fs
  unfolding resolver_fields
  resolver_fields-judged fs b =
      loop-judged (λ f b. resolver_step C f f.mapstructure b) (resolver_fields C)
        (λ b. refl, λ f fs b. refl, λ f b. ground arith) fs b

  schema_fields-judged :
      (mark : Text) (fs : List Field) (b : Text) → verdict (schema_fields C mark fs b) ≡ judged fs
  unfolding schema_fields
  schema_fields-judged mark fs b =
      loop-judged (λ f b. schema_step C mark f f.mapstructure b) (schema_fields C mark)
        (λ b. refl, λ f fs b. refl, λ f b. ground arith) fs b

  build_schema-judged :
      (head mark : Text) (fs : List Field) → verdict (build_schema C head mark fs) ≡ judged fs
  unfolding build_schema
  build_schema-judged head mark fs =
      verdict-ended (schema_fields C mark fs (write_line 0 (head ++ codes " {") []))
        (write_line 0 (codes "}"))
      ∙ schema_fields-judged mark fs (write_line 0 (head ++ codes " {") [])

  global_schema-judged : (fs : List Field) → verdict (global_schema C fs) ≡ judged fs
  unfolding global_schema
  global_schema-judged fs =
      let one = build_schema-judged (codes "type Global") (codes "!") fs in
      let two = build_schema-judged (codes "input globalInput") [] fs in
      elim (Result-cases (build_schema C (codes "type Global") (codes "!") fs)) [
        | inr (e, failed) ↦ ground (arith, failed, one)
        | inl (t, e) ↦ elim (Result-cases (build_schema C (codes "input globalInput") [] fs)) [
          | inr (x, failed) ↦ ground (arith, e, failed, two)
          | inl (i, k) ↦ ground (arith, e, k, two)
        ]
      ]

  -- The generator of the input, the generator of the resolver and the schema of the global section
  -- succeed on just the same structs, and fail with the same error: that of the first field that has
  -- no tag `mapstructure`, or whose type has no counterpart in GraphQL.
  pub build-judged :
      (pkg pkg' : Text) (fs : List Field)
      → (verdict (build_input C pkg fs) ≡ judged fs)
        × (verdict (build_resolver C pkg' fs) ≡ judged fs)
        × (verdict (global_schema C fs) ≡ judged fs)
  unfolding build_input build_resolver
  build-judged pkg pkg' fs = (
    verdict-ended (input_fields C fs (input_head C pkg)) (input_text C)
        ∙ input_fields-judged fs (input_head C pkg),
    resolver_fields-judged fs _,
    global_schema-judged fs,
  )
