-- ===== src/Resolvers/Rules.antt =====
-- What the API shows of a parsed routing and of a parsed dns section: graphql/internal/resolver.go,
-- and the resolvers of graphql/service/routing/resolver.go and graphql/service/dns/resolver.go. A
-- resolver that only holds a value is that value; a field of type `interface{}` is a `Dynamic`.
pub mod Defined
use dae_wing.Base.{◌≡◌, Bool, Option, none, some, List, [], ◌∷◌, map, Text, if◌then◌else◌}
use dae_wing.Cursor.{encode_cursor, trim_prefix}
use dae_wing.Dae.{Dae, Param, necessary_outbounds}
use dae_wing.Store.Models.{Dns, Routing}

-- config_parser.Function
pub record Function : Type 0 where
  pub name : Text
  pub negated : Bool
  pub params : List Param

-- config_parser.RoutingRule
pub record RoutingRule : Type 0 where
  pub and_functions : List Function
  pub outbound : Function

-- config.FunctionOrString and config.FunctionListOrString
pub data Dynamic : Type 0 where
  text : Text → Dynamic
  function : Function → Dynamic
  functions : List Function → Dynamic
  another : Dynamic

-- ToPlaintext of FunctionOrPlaintextResolver and of AndFunctionsOrPlaintextResolver
abbrev pub to_plaintext : Dynamic → Option Text
to_plaintext (Dynamic.text s) = some s
to_plaintext (Dynamic.function f) = none
to_plaintext (Dynamic.functions fs) = none
to_plaintext Dynamic.another = none

-- ToFunction
abbrev pub to_function : Dynamic → Option Function
to_function (Dynamic.text s) = none
to_function (Dynamic.function f) = some f
to_function (Dynamic.functions fs) = none
to_function Dynamic.another = none

-- ToAndFunctions
abbrev pub to_and_functions : Dynamic → Option (List Function)
to_and_functions (Dynamic.text s) = none
to_and_functions (Dynamic.function f) = none
to_and_functions (Dynamic.functions fs) = some fs
to_and_functions Dynamic.another = none

-- And
unfoldable pub conjuncts : List Function → List Function
conjuncts [] = []
conjuncts (f ∷ fs) = f ∷ conjuncts fs

-- Params
abbrev params_from : List Param → List Param
params_from [] = []
params_from (p ∷ ps) = p ∷ params_from ps

unfoldable pub params_of : Function → List Param
params_of f = params_from f.params

-- DaeResolver: daeConfig.Routing with the fields that are read here, and its text
pub record DaeResolver : Type 0 where
  pub routing_rules : List RoutingRule
  pub routing_fallback : Dynamic
  pub raw : Text

-- Rules
abbrev rules_from : List RoutingRule → List RoutingRule
rules_from [] = []
rules_from (r ∷ rs) = r ∷ rules_from rs

unfoldable pub rules : DaeResolver → List RoutingRule
rules r = rules_from r.routing_rules

-- Fallback
unfoldable pub fallback : DaeResolver → Dynamic
fallback r = r.routing_fallback

-- Conditions and Outbound of RuleResolver
unfoldable pub conditions : RoutingRule → List Function
conditions r = r.and_functions

unfoldable pub outbound_of : RoutingRule → Function
outbound_of r = r.outbound

module _ ⦃D : Dae⦄ where
  -- dae's sections as the resolvers read them, and GetTagFromLinkLikePlaintext of dae
  pub record Shape : Type 0 where
    pub rules_in : D.Routing → List RoutingRule
    pub fallback_in : D.Routing → Dynamic
    pub upstreams_in : D.Dns → List Text
    pub request_rules : D.Dns → List RoutingRule
    pub request_fallback : D.Dns → Dynamic
    pub response_rules : D.Dns → List RoutingRule
    pub response_fallback : D.Dns → Dynamic
    pub tag_and_rest : Text → Text × Text
    -- the names of the outbounds of the rules
    pub rule_outbounds-rules_in :
        (r : D.Routing) → D.rule_outbounds r ≡ map (λ x. x.outbound.name) (rules_in r)
    -- FunctionOrStringToFunction
    pub fallback_name-text :
        (r : D.Routing) (s : Text) → fallback_in r ≡ Dynamic.text s → D.fallback_name r ≡ s
    pub fallback_name-function :
        (r : D.Routing) (f : Function)
        → fallback_in r ≡ Dynamic.function f
        → D.fallback_name r ≡ f.name

  -- ReferenceGroups
  unfoldable pub reference_groups : D.Routing → List Text
  reference_groups r = necessary_outbounds r

  module _ (S : Shape) where
    -- Routing of the resolver of a routing
    unfoldable pub shown_routing : D.Routing → Routing → DaeResolver
    shown_routing r m = record {
      routing_rules = S.rules_in r;
      routing_fallback = S.fallback_in r;
      raw = m.routing;
    }

    -- Upstream of DnsResolver
    abbrev upstreams_from : List Text → List Param
    upstreams_from [] = []
    upstreams_from (u ∷ us) =
        record { key = (S.tag_and_rest u).0; val = (S.tag_and_rest u).1 } ∷ upstreams_from us

    unfoldable pub upstreams : D.Dns → List Param
    upstreams d = upstreams_from (S.upstreams_in d)

    -- Request and Response of RoutingResolver
    unfoldable pub request : D.Dns → DaeResolver
    request d = record {
      routing_rules = S.request_rules d;
      routing_fallback = S.request_fallback d;
      raw = [];
    }

    unfoldable pub response : D.Dns → DaeResolver
    response d = record {
      routing_rules = S.response_rules d;
      routing_fallback = S.response_fallback d;
      raw = [];
    }
