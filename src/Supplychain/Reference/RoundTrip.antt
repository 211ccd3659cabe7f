-- ===== src/Supplychain/Reference/RoundTrip.antt =====
-- The printed reference of internal/supplychain/reference.go, parsed again.
use marstack_govern.Prelude.{
  ℕ, ◌≡◌, refl, sym, ap, ◌∙◌, Bytes, bytes_eq, true, false, not, ◌&&◌, [], ◌∷◌, ◌++◌, none, some,
  ok, ◌⊎◌, inl, inr,
}
use mathlib.Core.List.{append_assoc}
use marstack_govern.Supplychain.Reference.{
  Texts, Reference, default_registry, is_empty, has_byte, print, is_registry, split_registry,
  last_colon, qualify, assemble, parse_name, parse_trimmed, parse_reference,
}
use marstack_govern.Supplychain.Reference.Scan.{
  has_byte-append, cut-append, cut_absent, cut_last_absent, cut_last-append,
}

-- The name of a reference: a registry that says it is one, and a repository within it.
pub record IsName (r : Reference) : Type 0 where
  pub registry_slash : has_byte 47 r.registry ≡ false
  pub registry_at : has_byte 64 r.registry ≡ false
  pub registry_mark : is_registry r.registry ≡ true
  pub repository_at : has_byte 64 r.repository ≡ false
  pub repository_colon : has_byte 58 r.repository ≡ false
  pub repository_some : is_empty r.repository ≡ false
  pub repository_space :
      (bytes_eq r.registry default_registry && not (has_byte 47 r.repository)) ≡ false

-- A reference by digest carries no tag.
pub record ByDigest (r : Reference) : Type 0 where
  pub digest_some : is_empty r.digest ≡ false
  pub digest_only : r.tag ≡ []

-- A reference by tag carries no digest.
pub record ByTag (r : Reference) : Type 0 where
  pub tag_some : is_empty r.tag ≡ false
  pub tag_at : has_byte 64 r.tag ≡ false
  pub tag_colon : has_byte 58 r.tag ≡ false
  pub tag_slash : has_byte 47 r.tag ≡ false
  pub tag_only : r.digest ≡ []

split-join :
    (r : Reference)
    → IsName r
    → (rest : Bytes) → split_registry (r.registry ++ (47 ∷ rest)) ≡ (r.registry, rest)
unfolding split_registry
split-join r n rest =
    rw (split_registry, cut-append 47 r.registry rest n.registry_slash, n.registry_mark) refl

qualify_same : (r : Reference) → IsName r → qualify r.registry r.repository ≡ r.repository
unfolding qualify
qualify_same r n = rw (n.repository_space) refl

at-name : (r : Reference) → IsName r → has_byte 64 (r.registry ++ (47 ∷ r.repository)) ≡ false
unfolding has_byte
at-name r n =
    rw (has_byte-append 64 r.registry (47 ∷ r.repository), n.registry_at, n.repository_at) refl

last_colon-tag :
    (repository tag : Bytes)
    → has_byte 58 tag ≡ false
    → has_byte 47 tag ≡ false
    → last_colon (repository ++ (58 ∷ tag)) ≡ some (repository, tag)
unfolding last_colon
last_colon-tag repository tag c s = rw (last_colon, cut_last-append 58 repository tag c, s) refl

last_colon-none :
    (repository : Bytes) → has_byte 58 repository ≡ false → last_colon repository ≡ none
unfolding last_colon
last_colon-none repository h = rw (last_colon, cut_last_absent 58 repository h) refl

is_empty-join : (xs ys : Bytes) (c : ℕ) → is_empty (xs ++ (c ∷ ys)) ≡ false
is_empty-join [] ys c = refl
is_empty-join (x ∷ xs) ys c = refl

-- The text is cut at its first `@`.
parse_trimmed-cut :
    (go : Texts) (image name digest : Bytes)
    → has_byte 64 name ≡ false
    → parse_trimmed go image (name ++ (64 ∷ digest)) ≡ parse_name go image name digest
unfolding parse_trimmed
parse_trimmed-cut go image name digest h =
    rw (parse_trimmed, is_empty-join name digest 64, cut-append 64 name digest h) refl

parse_trimmed-whole :
    (go : Texts) (image text : Bytes)
    → is_empty text ≡ false
    → has_byte 64 text ≡ false
    → parse_trimmed go image text ≡ parse_name go image text []
unfolding parse_trimmed
parse_trimmed-whole go image text e h = rw (parse_trimmed, e, cut_absent 64 text h) refl

parse_name-bare :
    (go : Texts) (image : Bytes) (r : Reference)
    → IsName r
    → (digest : Bytes)
    → parse_name go image (r.registry ++ (47 ∷ r.repository)) digest
      ≡ assemble go image r.registry r.repository [] digest
unfolding parse_name
parse_name-bare go image r n digest =
    rw
      (
        parse_name,
        split-join r n r.repository,
        last_colon-none r.repository n.repository_colon,
        split-join r n r.repository,
      )
      refl

parse_name-tagged :
    (go : Texts) (image : Bytes) (r : Reference)
    → IsName r
    → ByTag r
    → parse_name go image (r.registry ++ (47 ∷ (r.repository ++ (58 ∷ r.tag)))) []
      ≡ assemble go image r.registry r.repository r.tag []
unfolding parse_name
parse_name-tagged go image r n t =
    rw
      (
        parse_name,
        split-join r n (r.repository ++ (58 ∷ r.tag)),
        last_colon-tag r.repository r.tag t.tag_colon t.tag_slash,
        split-join r n (r.repository ++ (58 ∷ r.tag)),
      )
      refl

assemble-digest :
    (go : Texts) (image : Bytes) (r : Reference)
    → IsName r
    → ByDigest r
    → assemble go image r.registry r.repository [] r.digest ≡ ok r
unfolding assemble
assemble-digest go image r n d =
    rw (assemble, n.repository_some, qualify_same r n, d.digest_some)
      (ap
        (λ tag. ok (record {
          registry = r.registry;
          repository = r.repository;
          tag = tag;
          digest = r.digest;
        }))
        (sym d.digest_only))

assemble-tag :
    (go : Texts) (image : Bytes) (r : Reference)
    → IsName r
    → ByTag r
    → assemble go image r.registry r.repository r.tag [] ≡ ok r
unfolding assemble
assemble-tag go image r n t =
    rw (assemble, n.repository_some, qualify_same r n, t.tag_some)
      (ap
        (λ digest. ok (record {
          registry = r.registry;
          repository = r.repository;
          tag = r.tag;
          digest = digest;
        }))
        (sym t.tag_only))

tagged_at :
    (r : Reference)
    → IsName r
    → ByTag r
    → has_byte 64 ((r.registry ++ (47 ∷ r.repository)) ++ (58 ∷ r.tag)) ≡ false
unfolding has_byte
tagged_at r n t =
    rw (has_byte-append 64 (r.registry ++ (47 ∷ r.repository)) (58 ∷ r.tag), at-name r n, t.tag_at)
      refl

parse-digest :
    (go : Texts) (image : Bytes) (r : Reference)
    → IsName r
    → ByDigest r
    → parse_trimmed go image (print r) ≡ ok r
unfolding print
parse-digest go image r n d =
    rw (print, d.digest_some)
      (parse_trimmed-cut go image (r.registry ++ (47 ∷ r.repository)) r.digest (at-name r n)
        ∙ parse_name-bare go image r n r.digest
        ∙ assemble-digest go image r n d)

print-tag :
    (r : Reference) → ByTag r → print r ≡ (r.registry ++ (47 ∷ r.repository)) ++ (58 ∷ r.tag)
unfolding print
print-tag r t = rw (print, t.tag_only) refl

parse-tag :
    (go : Texts) (image : Bytes) (r : Reference)
    → IsName r
    → ByTag r
    → parse_trimmed go image (print r) ≡ ok r
parse-tag go image r n t =
    let name : Bytes = r.registry ++ (47 ∷ r.repository) in
    ap (parse_trimmed go image) (print-tag r t)
    ∙ (parse_trimmed-whole go image (name ++ (58 ∷ r.tag)) (is_empty-join name r.tag 58)
          (tagged_at r n t)
        ∙ ap (λ text. parse_name go image text [])
            (append_assoc r.registry (47 ∷ r.repository) (58 ∷ r.tag))
        ∙ parse_name-tagged go image r n t
        ∙ assemble-tag go image r n t)

-- A reference whose registry is one, whose repository is complete, and that has either a tag or a
-- digest, is printed as a text that `ParseReference` reads back as the same reference, where
-- `strings.TrimSpace` leaves the printed text as it is.
pub parse_reference-print :
    (go : Texts) (r : Reference)
    → IsName r
    → ByDigest r ⊎ ByTag r
    → go.trim_space (print r) ≡ print r
    → parse_reference go (print r) ≡ ok r
unfolding parse_reference
parse_reference-print go r n (inl d) trimmed =
    ap (parse_trimmed go (print r)) trimmed ∙ parse-digest go (print r) r n d
parse_reference-print go r n (inr t) trimmed =
    ap (parse_trimmed go (print r)) trimmed ∙ parse-tag go (print r) r n t
