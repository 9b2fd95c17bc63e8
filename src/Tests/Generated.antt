-- ===== src/Tests/Generated.antt =====
-- A struct with a field of each kind that the generators know but one.
use dae_wing.Base.{◌≡◌, some, List, [], ◌∷◌, codes}
use dae_wing.Generators.{Kind, Field, Cases, build_input, build_resolver, global_schema}
use dae_wing.Generators.Agree.{verdict, judged, build-judged}

abbrev plain_cases : Cases
plain_cases = record { upper_camel = λ s. s; lower_camel = λ s. s }

abbrev fields : List Field
fields =
    record {
      name = codes "TproxyPort";
      type_text = codes "uint16";
      kind = Kind.integer;
      mapstructure = some (codes "tproxy_port");
    }
    ∷ record {
      name = codes "CheckInterval";
      type_text = codes "time.Duration";
      kind = Kind.duration;
      mapstructure = some (codes "check_interval");
    }
    ∷ record {
      name = codes "Ratio";
      type_text = codes "float64";
      kind = Kind.other;
      mapstructure = some (codes "ratio");
    }
    ∷ []

build-judged_example :
    (verdict (build_input plain_cases (codes "p") fields) ≡ judged fields)
    × (verdict (build_resolver plain_cases (codes "p") fields) ≡ judged fields)
    × (verdict (global_schema plain_cases fields) ≡ judged fields)
build-judged_example = build-judged plain_cases (codes "p") (codes "p") fields
