-- ===== src/Identity/Authorizer.antt =====
-- internal/identity/authorizer.go: which namespaces a user may list, asked of Kubernetes and kept for
-- a while. What Kubernetes answers is the record `Cluster`. Call `i` of `allowed` reads the time
-- `Clock.read i` in `cached` and `Clock.write i` in `remember`; times and the TTL are nanoseconds.
pub mod Uncached
pub mod Stale
use marstack_govern.Prelude.{
  ℕ, ◌+◌, ℤ, ◌-ℤ◌, ltb_ℤ, String, concat, str_eq, Bool, true, false, List, [], ◌∷◌, ◌++◌, Option,
  none, some, Result, ok, err, if◌then◌else◌,
}
use marstack_govern.Prelude.Assoc.{lookup, assign, contains}

pub record Actor : Type 0 where
  pub subject : String
  pub groups : List String
  pub label : String

pub record Scope : Type 0 where
  pub allow_all : Bool
  pub namespaces : List String

-- `Scope.Allows`
unfoldable pub allows : Scope → String → Bool
unfolding contains
allows s namespace = if s.allow_all then true else contains namespace s.namespaces

pub record Cluster : Type 0 where
  pub client : String → List String → Option String  -- the error of the client's factory
  pub review : String → List String → String → Result Bool
  pub quote : String → String

-- `decision`
pub record Kept : Type 0 where
  pub is_allowed : Bool
  pub at : ℤ

pub record Clock : Type 0 where
  pub read : ℕ → ℤ
  pub write : ℕ → ℤ

abbrev pub Cache : Type 0
Cache = List (String × Kept)

unfoldable pub key_of : Actor → String → String
key_of actor namespace = concat (concat actor.subject "|") namespace

-- `cached`. `Time.Sub` saturates, which no test here can tell from the difference.
unfoldable pub cached : ℤ → ℤ → String → Cache → Option Bool
unfolding lookup
cached ttl now key m = elim (lookup key m) [
  | none ↦ none
  | some d ↦ if ltb_ℤ ttl (now -ℤ d.at) then none else some d.is_allowed
]

-- The question to Kubernetes, with no cache.
unfoldable pub asked : Cluster → Actor → String → Result Bool
asked k actor namespace = elim (k.client actor.subject actor.groups) [
  | some e ↦ err (concat "build a client for " (concat actor.label (concat ": " e)))
  | none ↦ elim (k.review actor.subject actor.groups namespace) [
    | err e ↦ err (
        concat "ask kubernetes whether " (
          concat actor.label
            (concat " may list workloads in " (concat (k.quote namespace) (concat ": " e)))))
    | ok b ↦ ok b
  ]
]

-- What `remember` leaves of an answer; an error is not kept.
unfoldable pub remembered : ℤ → String → Cache → Result Bool → Cache × Result Bool
unfolding assign
remembered now key m (err e) = (m, err e)
remembered now key m (ok b) = (assign key (record { is_allowed = b; at = now }) m, ok b)

module _ (k : Cluster) (clock : Clock) (ttl : ℤ) where
  -- `Authorizer.allowed`, as call `i`.
  unfoldable pub allowed : ℕ → Actor → String → Cache → Cache × Result Bool
  unfolding key_of cached asked remembered
  allowed i actor namespace m = elim (cached ttl (clock.read i) (key_of actor namespace) m) [
    | some b ↦ (m, ok b)
    | none ↦ remembered (clock.write i) (key_of actor namespace) m (asked k actor namespace)
  ]

  -- The loop of `ScopeFor` over the candidates, from call `i` on; the namespaces so far are `seen`.
  unfoldable pub scan : ℕ → Actor → List String → List String → Cache → Cache × Result Scope
  unfolding allowed
  scan i actor seen [] m = (m, ok (record { allow_all = false; namespaces = seen }))
  scan i actor seen (n ∷ ns) m =
      let answer = allowed i actor n m in
      elim answer.1 [
        | err e ↦ (answer.0, err e)
        | ok b ↦ scan (i + 1) actor (if b then seen ++ (n ∷ []) else seen) ns answer.0
      ]

  -- `Authorizer.ScopeFor`
  unfoldable pub scope_for : Actor → List String → Cache → Cache × Result Scope
  unfolding scan
  scope_for actor candidates m =
      let answer = allowed 0 actor "" m in
      elim answer.1 [
        | err e ↦ (answer.0, err e)
        | ok all ↦
            if all
            then (answer.0, ok (record { allow_all = true; namespaces = [] }))
            else scan 1 actor [] candidates answer.0
      ]

-- The same without a cache.
unfoldable pub scan_uncached : Cluster → Actor → List String → List String → Result Scope
unfolding asked
scan_uncached k actor seen [] = ok (record { allow_all = false; namespaces = seen })
scan_uncached k actor seen (n ∷ ns) = elim (asked k actor n) [
  | err e ↦ err e
  | ok b ↦ scan_uncached k actor (if b then seen ++ (n ∷ []) else seen) ns
]

unfoldable pub scope_uncached : Cluster → Actor → List String → Result Scope
unfolding scan_uncached
scope_uncached k actor candidates = elim (asked k actor "") [
  | err e ↦ err e
  | ok all ↦
      if all
      then ok (record { allow_all = true; namespaces = [] })
      else scan_uncached k actor [] candidates
]
