-- ===== src/Supplychain/Reference.antt =====
-- internal/supplychain/reference.go: the references of container images, as bytes.
-- `strings.TrimSpace` and `%q` are the fields of `Texts`.
pub mod Scan
pub mod RoundTrip
use marstack_govern.Prelude.{
  ℕ, ◌==◌, String, concat, Bytes, bytes_eq, Bool, true, false, not, ◌&&◌, ◌||◌, List, [], ◌∷◌, ◌++◌,
  Option, none, some, Result, ok, err, if◌then◌else◌,
}

pub record Texts : Type 0 where
  pub trim_space : Bytes → Bytes
  pub quote : Bytes → String

pub record Reference : Type 0 where
  pub registry : Bytes
  pub repository : Bytes
  pub tag : Bytes
  pub digest : Bytes

-- "index.docker.io", "library", "latest" and "localhost".
abbrev pub default_registry : Bytes
default_registry =
    105 ∷ 110 ∷ 100 ∷ 101 ∷ 120 ∷ 46 ∷ 100 ∷ 111 ∷ 99 ∷ 107 ∷ 101 ∷ 114 ∷ 46 ∷ 105 ∷ 111 ∷ []

abbrev pub default_namespace : Bytes
default_namespace = 108 ∷ 105 ∷ 98 ∷ 114 ∷ 97 ∷ 114 ∷ 121 ∷ []

abbrev pub default_tag : Bytes
default_tag = 108 ∷ 97 ∷ 116 ∷ 101 ∷ 115 ∷ 116 ∷ []

abbrev pub localhost : Bytes
localhost = 108 ∷ 111 ∷ 99 ∷ 97 ∷ 108 ∷ 104 ∷ 111 ∷ 115 ∷ 116 ∷ []

abbrev pub is_empty : Bytes → Bool
is_empty [] = true
is_empty (b ∷ bs) = false

-- `strings.Contains` of one byte.
unfoldable pub has_byte : ℕ → Bytes → Bool
has_byte c [] = false
has_byte c (b ∷ bs) = let rest = has_byte c bs in if b == c then true else rest

-- `strings.Cut` at one byte; `none` where the byte is not found.
unfoldable pub cut : ℕ → Bytes → Option (Bytes × Bytes)
cut c [] = none
cut c (b ∷ bs) =
    let rest = cut c bs in
    if b == c
    then some ([], bs)
    else elim rest [ none ↦ none | some (before, after) ↦ some (b ∷ before, after) ]

-- The text around the last byte `c`.
unfoldable pub cut_last : ℕ → Bytes → Option (Bytes × Bytes)
cut_last c [] = none
cut_last c (b ∷ bs) = elim (cut_last c bs) [
  | some (before, after) ↦ some (b ∷ before, after)
  | none ↦ if b == c then some ([], bs) else none
]

-- `Reference.Pinned`
unfoldable pub pinned : Reference → Bool
pinned r = not (is_empty r.digest)

-- `Reference.String`
unfoldable pub print : Reference → Bytes
print r =
    let name = r.registry ++ (47 ∷ r.repository) in
    if not (is_empty r.digest) then name ++ (64 ∷ r.digest) else name ++ (58 ∷ r.tag)

-- What makes the first part of a name a registry: a dot, a colon, or the name localhost.
unfoldable pub is_registry : Bytes → Bool
unfolding has_byte
is_registry head = has_byte 46 head || has_byte 58 head || bytes_eq head localhost

-- `splitRegistry`
unfoldable pub split_registry : Bytes → Bytes × Bytes
unfolding cut is_registry
split_registry name = elim (cut 47 name) [
  | none ↦ (default_registry, name)
  | some (head, rest) ↦ if not (is_registry head) then (default_registry, name) else (head, rest)
]

-- `lastColon`; `none` where there is no tag.
unfoldable pub last_colon : Bytes → Option (Bytes × Bytes)
unfolding cut_last has_byte
last_colon name = elim (cut_last 58 name) [
  | none ↦ none
  | some (repository, tag) ↦ if has_byte 47 tag then none else some (repository, tag)
]

-- The repository, in its default namespace where it has none.
unfoldable pub qualify : Bytes → Bytes → Bytes
unfolding has_byte
qualify registry repository =
    if bytes_eq registry default_registry && not (has_byte 47 repository)
    then default_namespace ++ (47 ∷ repository)
    else repository

-- The rest of `ParseReference`, from the parts of the text.
unfoldable pub assemble : Texts → Bytes → Bytes → Bytes → Bytes → Bytes → Result Reference
unfolding qualify
assemble go image registry repository tag digest =
    if is_empty repository
    then err (concat (go.quote image) " names no repository")
    else ok (record {
      registry = registry;
      repository = qualify registry repository;
      tag = if is_empty tag && is_empty digest then default_tag else tag;
      digest = digest;
    })

-- From the name without its digest.
unfoldable pub parse_name : Texts → Bytes → Bytes → Bytes → Result Reference
unfolding split_registry last_colon assemble
parse_name go image name digest =
    let (registry, remainder) = split_registry name in
    elim (last_colon remainder) [
      | none ↦ assemble go image registry remainder [] digest
      | some (repository, tag) ↦ assemble go image registry repository tag digest
    ]

-- From the trimmed text.
unfoldable pub parse_trimmed : Texts → Bytes → Bytes → Result Reference
unfolding cut parse_name
parse_trimmed go image trimmed =
    if is_empty trimmed then err "an image reference cannot be empty" else elim (cut 64 trimmed) [
      | none ↦ parse_name go image trimmed []
      | some (name, digest) ↦ parse_name go image name digest
    ]

-- `ParseReference`
unfoldable pub parse_reference : Texts → Bytes → Result Reference
unfolding parse_trimmed
parse_reference go image = parse_trimmed go image (go.trim_space image)
