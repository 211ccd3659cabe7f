-- ===== src/Tests/Supplychain.antt =====
-- The theorems on image references at a concrete input (internal/supplychain/reference.go).
use marstack_govern.Prelude.{bytes_eq, ◌≡◌, refl, inr, [], ◌∷◌, ok}
use marstack_govern.Supplychain.Reference.{
  Texts, Reference, has_byte, is_registry, print, parse_reference,
}
use marstack_govern.Supplychain.Reference.RoundTrip.{parse_reference-print}

abbrev texts : Texts
texts = record { trim_space = λ t. t; quote = λ t. "" }

-- g.io/a/b:v1
abbrev reference : Reference
reference = record {
  registry = 103 ∷ 46 ∷ 105 ∷ 111 ∷ [];
  repository = 97 ∷ 47 ∷ 98 ∷ [];
  tag = 118 ∷ 49 ∷ [];
  digest = [];
}

parse_reference-print_example : parse_reference texts (print reference) ≡ ok reference
unfolding has_byte is_registry bytes_eq
parse_reference-print_example =
    parse_reference-print texts reference
      (record {
        registry_slash = refl;
        registry_at = refl;
        registry_mark = refl;
        repository_at = refl;
        repository_colon = refl;
        repository_some = refl;
        repository_space = refl;
      })
      (inr (record {
        tag_some = refl;
        tag_at = refl;
        tag_colon = refl;
        tag_slash = refl;
        tag_only = refl;
      }))
      refl
