-- ===== src/Dae.antt =====
-- What dae-wing uses of dae (github.com/daeuniverse/dae), and dae/utils.go, which calls it.
-- dae's parser and the types of its three sections are not part of the repository: they are the
-- interface `Dae`. The generated `global.Input` with its `Marshal` and `Assign` is a part of it.
use dae_wing.Base.{
  ◌≡◌, Bool, Option, none, some, List, [], ◌∷◌, ◌++◌, Text, codes, text_eq, member, if◌then◌else◌,
  Result, ◌>>=◌,
}
use dae_wing.Cursor.{trim_prefix}

-- config_parser.Param
pub record Param : Type 0 where
  pub key : Text
  pub val : Text

-- daeConfig.FunctionListOrString, as far as `Run` builds it
pub data Policy : Type 0 where
  plain : Text → Policy
  function : Text → Bool → List Param → Policy

-- daeConfig.Group
pub record DaeGroup : Type 0 where
  pub name : Text
  pub filter_names : List Param
  pub policy : Policy

-- daeConfig.Config, over the types of the sections
pub record DaeConfig (G D R : Type 0) : Type 0 where
  pub global : G
  pub dns : D
  pub routing : R
  pub group : List DaeGroup
  pub node : List Text

pub record Dae : Type 1 where
  pub Global : Type 0
  pub Dns : Type 0
  pub Routing : Type 0
  pub Sections : Type 0
  -- config_parser.Parse and daeConfig.New
  pub parse : Text → Result Sections
  pub new : Sections → Result (DaeConfig Global Dns Routing)
  -- the name of the fallback function, and the outbounds of the rules
  pub fallback_name : Routing → Text
  pub rule_outbounds : Routing → List Text
  -- daeCommon.Deduplicate
  pub deduplicate : List Text → List Text
  pub deduplicate-member : (s : Text) (l : List Text) → member s (deduplicate l) ≡ member s l
  -- global.Input with Marshal and Assign, and daeConfig.Marshaller on the global section
  pub Input : Type 0
  pub empty_input : Input
  pub marshal_input : Input → Result Text
  pub assign : Input → Global → Global
  pub marshal_global : Global → Result Text

-- strings.Join
unfoldable pub join : List Text → Text → Text
join [] sep = []
join (s ∷ []) sep = s
join (s ∷ t ∷ rest) sep = s ++ (sep ++ join (t ∷ rest) sep)

module _ ⦃D : Dae⦄ where
  abbrev pub Conf : Type 0
  Conf = DaeConfig D.Global D.Dns D.Routing

  abbrev section_or : Option Text → Text → Text
  section_or none empty = empty
  section_or (some s) empty = s

  -- ParseConfig
  unfoldable pub parse_config : Option Text → Option Text → Option Text → Result Conf
  parse_config global dns routing = do
    let text =
        join
          (section_or global (codes "global {}")
            ∷ section_or dns (codes "dns {}")
            ∷ section_or routing (codes "routing {}")
            ∷ codes "group {}"
            ∷ codes "subscription {}"
            ∷ codes "node {}"
            ∷ [])
          (codes "\n")
    sections ← D.parse text
    D.new sections

  -- the loop of NecessaryOutbounds over the rules
  unfoldable pub rule_targets : List Text → List Text
  rule_targets [] = []
  rule_targets (o ∷ rules) =
      (if text_eq o (codes "must_rules") then o else trim_prefix (codes "must_") o)
      ∷ rule_targets rules

  -- NecessaryOutbounds
  unfoldable pub necessary_outbounds : D.Routing → List Text
  necessary_outbounds routing =
      D.deduplicate (D.fallback_name routing ∷ rule_targets (D.rule_outbounds routing))
