-- ===== src/Tests/Described.antt =====
-- A small configuration, described.
use dae_wing.Base.{◌≡◌, refl, true, false, [], ◌∷◌, map, Text, codes}
use dae_wing.Descs.{Tags, GoType, Fields, Desc, export_flat_desc}
use dae_wing.Descs.Paths.{paths, export_flat_desc-paths}

abbrev tagged : Text → Tags
tagged s = record { mapstructure = s; desc = []; default = []; required = false }

-- a section that is a pointer to a struct, and a slice of structs
abbrev pub config_fields : Fields
config_fields =
    Fields.field (codes "Global") (tagged (codes "global"))
      (GoType.pointer (codes "*Global") (
        GoType.struct (codes "Global") true (
          Fields.field (codes "LogLevel") (tagged (codes "log_level"))
            (GoType.plain (codes "string")) Fields.end)))
      (Fields.field (codes "Group") (tagged (codes "group"))
        (GoType.slice (codes "[]Group") (
          GoType.struct (codes "Group") true (
            Fields.field (codes "Name") (tagged (codes "name")) (GoType.plain (codes "string"))
              Fields.end)))
        Fields.end)

abbrev pub no_descs : Desc
no_descs s = []

names_of_config :
    paths (λ name tags. name) config_fields
    ≡ codes "Global" ∷ codes "Global.LogLevel" ∷ codes "Group" ∷ codes "Group.Name" ∷ []
unfolding paths
names_of_config = refl

export_flat_desc-paths_example :
    (map (λ d. d.name) (export_flat_desc (λ s. no_descs) config_fields no_descs)
      ≡ paths (λ name tags. name) config_fields)
    × (map (λ d. d.mapping) (export_flat_desc (λ s. no_descs) config_fields no_descs)
        ≡ paths (λ name tags. tags.mapstructure) config_fields)
export_flat_desc-paths_example = export_flat_desc-paths (λ s. no_descs) config_fields no_descs
