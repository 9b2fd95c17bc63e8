-- ===== src/Tests/Sections.antt =====
-- The text of a section and back.
use dae_wing.Base.{◌≡◌, codes}
use dae_wing.Resolvers.{dns_string, routing_string}
use dae_wing.Resolvers.RoundTrip.{section-string}
use dae_wing.Services.Dnss.{dns_section}
use dae_wing.Services.Groups.{trim_space}
use dae_wing.Services.Routings.{routing_section}

section-string_example :
    (dns_string (dns_section (codes " fallback: direct\n"))
      ≡ trim_space (codes " fallback: direct\n"))
    × (routing_string (routing_section (codes " fallback: direct\n"))
        ≡ trim_space (codes " fallback: direct\n"))
section-string_example = section-string (codes " fallback: direct\n")
