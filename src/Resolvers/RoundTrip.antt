-- ===== src/Resolvers/RoundTrip.antt =====
-- A stored section gives back the text that it was made of, but for the white space around it.
use mathlib.Core.List.{reverse, reverse-append, reverse-reverse, append_assoc}
use dae_wing.Base.{
  ◌≡◌, ◌⊎◌, inl, inr, refl, ap, sym, ◌∙◌, [], ◌∷◌, ◌++◌, Bool-cases, Text, codes, arith,
}
use dae_wing.Cursor.{trim_prefix, cut_prefix}
use dae_wing.Resolvers.{trim_suffix, dns_string, routing_string}
use dae_wing.Services.Dnss.{dns_section}
use dae_wing.Services.Groups.{is_space, trim_left, trim_space}
use dae_wing.Services.Routings.{routing_section}

abbrev newline : Text
newline = 10 ∷ []

-- a line break behind a text of white space is trimmed with it, and stays behind another text
trim_left-newline :
    (t : Text)
    → ((trim_left t ≡ []) × (trim_left (t ++ newline) ≡ []))
      ⊎ (trim_left (t ++ newline) ≡ trim_left t ++ newline)
unfolding trim_left
trim_left-newline [] = inl (refl, refl)
trim_left-newline (c ∷ t) = elim (Bool-cases (is_space c)) [
  | inr solid ↦ inr (ground (arith, solid))
  | inl space ↦ elim (trim_left-newline t) [
    | inl (e, e') ↦ inl (ground (arith, space, e), ground (arith, space, e'))
    | inr e ↦ inr (ground (arith, space, e))
  ]
]

trim_space-newlines : (t : Text) → trim_space (10 ∷ (t ++ newline)) ≡ trim_space t
unfolding trim_space trim_left
trim_space-newlines t = elim (trim_left-newline t) [
  | inl (e, e') ↦ ap (λ u. reverse (trim_left (reverse u))) (e' ∙ sym e)
  | inr e ↦
      ap (λ u. reverse (trim_left (reverse u))) e
      ∙ ap (λ u. reverse (trim_left u)) (reverse-append (trim_left t) newline)
]

trim_suffix-brace : (u : Text) → trim_suffix (codes "}") (u ++ codes "}") ≡ u
unfolding trim_suffix trim_prefix cut_prefix
trim_suffix-brace u =
    ap (λ s. reverse (trim_prefix (codes "}") s)) (reverse-append u (codes "}")) ∙ reverse-reverse u

-- what is left of a section without its opening
inside : (t : Text) → trim_space (trim_suffix (codes "}") (10 ∷ (t ++ codes "\n}"))) ≡ trim_space t
inside t =
    ap (λ s. trim_space (trim_suffix (codes "}") (10 ∷ s)))
      (sym (append_assoc t newline (codes "}")))
    ∙ ap trim_space (trim_suffix-brace (10 ∷ (t ++ newline)))
    ∙ trim_space-newlines t

dns_string-section : (t : Text) → dns_string (dns_section t) ≡ trim_space t
unfolding dns_string trim_prefix cut_prefix
dns_string-section t = inside t

-- a text that begins and ends with a sign has no white space around it
trim_space-braces : (t : Text) → trim_space (routing_section t) ≡ routing_section t
unfolding trim_space trim_left
trim_space-braces t =
    let front : Text = codes "routing {\n" ++ (t ++ newline) in
    let whole : routing_section t ≡ front ++ codes "}" =
      ap (λ s. codes "routing {\n" ++ s) (sym (append_assoc t newline (codes "}"))) in
    ap (λ s. reverse (trim_left s)) (ap reverse whole ∙ reverse-append front (codes "}"))
    ∙ ap reverse (sym (ap reverse whole ∙ reverse-append front (codes "}")))
    ∙ reverse-reverse (routing_section t)

routing_string-section : (t : Text) → routing_string (routing_section t) ≡ trim_space t
unfolding routing_string trim_prefix cut_prefix
routing_string-section t =
    ap (λ s. trim_space (trim_suffix (codes "}") (trim_prefix (codes "routing {") s)))
      (trim_space-braces t)
    ∙ inside t

-- The text that the resolver of a dns section, and that of a routing, gives back of a text that was
-- stored as such a section is that text without the white space around it.
pub section-string :
    (t : Text)
    → (dns_string (dns_section t) ≡ trim_space t)
      × (routing_string (routing_section t) ≡ trim_space t)
section-string t = (dns_string-section t, routing_string-section t)
