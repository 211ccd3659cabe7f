-- ===== src/Topology/Reachability.antt =====
-- internal/topology/reachability.go: whether network policies let one namespace reach another. The
-- selectors are Kubernetes' own, and a parameter. A map is an association list, whose order
-- nothing reads once the paths are sorted.
pub mod Policies
use marstack_govern.Prelude.{
  String, concat, str_eq, Bool, true, false, not, ◌&&◌, ◌||◌, List, [], ◌∷◌, ◌++◌, Option, none,
  some, Result, ok, err, if◌then◌else◌, stable_sort, str_less,
}
use marstack_govern.Prelude.Assoc.{lookup, assign}

pub data PolicyType : Type 0 where
  policy_ingress policy_egress : PolicyType

-- `NetworkPolicyPeer`, `NetworkPolicyIngressRule` and `NetworkPolicy`, with the fields that are
-- read; `S` is `metav1.LabelSelector`.
pub record Peer (S : Type 0) : Type 0 where
  pub namespace_selector : Option S

pub record Rule (S : Type 0) : Type 0 where
  pub sources : List (Peer S)

pub record NetworkPolicy (S : Type 0) : Type 0 where
  pub namespace : String
  pub name : String
  pub policy_types : List PolicyType
  pub ingress : List (Rule S)

abbrev pub Labels : Type 0
Labels = List (String × String)

pub record KubeNamespace : Type 0 where
  pub name : String
  pub labels : Labels

-- `Edge`, without its rates.
pub record Edge : Type 0 where
  pub client : String
  pub server : String

pub data Verdict : Type 0 where
  allowed_and_used allowed_unused observed_not_allowed denied : Verdict

pub record NetworkPath : Type 0 where
  pub source : String
  pub target : String
  pub is_allowed : Bool
  pub is_observed : Bool
  pub allowed_by : String
  pub verdict : Verdict

unfoldable pub has_ingress : List PolicyType → Bool
has_ingress [] = false
has_ingress (policy_ingress ∷ ts) = true
has_ingress (policy_egress ∷ ts) = has_ingress ts

module _ {S : Type 0} where
  -- `guards`
  unfoldable pub guards : NetworkPolicy S → Bool
  unfolding has_ingress
  guards p = elim p.policy_types [ [] ↦ true | t ∷ ts ↦ has_ingress (t ∷ ts) ]

-- `verdictOf`
unfoldable pub verdict_of : Bool → Bool → Verdict
verdict_of true true = allowed_and_used
verdict_of true false = allowed_unused
verdict_of false true = observed_not_allowed
verdict_of false false = denied

-- The loop that copies a namespace's labels.
unfoldable pub copy_labels : Labels → Labels → Labels
copy_labels known [] = known
copy_labels known ((k, v) ∷ ls) = copy_labels (assign k v known) ls

-- `namespaces`, from the list.
unfoldable pub catalogue_of : List KubeNamespace → List (String × Labels) → List (String × Labels)
unfolding copy_labels
catalogue_of [] known = known
catalogue_of (n ∷ ns) known =
    catalogue_of ns
      (assign n.name (copy_labels (("kubernetes.io/metadata.name", n.name) ∷ []) n.labels) known)

-- `catalogue[source]`, which is nil for a name that is not there.
unfoldable pub labels_of : List (String × Labels) → String → Labels
labels_of catalogue source = elim (lookup source catalogue) [ none ↦ [] | some ls ↦ ls ]

-- The observed edge from `source` to `target`. The source joins both names by a zero byte, which
-- no name holds.
unfoldable pub seen : List Edge → String → String → Bool
seen [] source target = false
seen (e ∷ es) source target =
    (str_eq e.client source && str_eq e.server target) || seen es source target

-- `LabelSelectorAsSelector` and `Matches`.
module _ {S : Type 0} (selector_of : S → Result (Labels → Bool)) where
  unfoldable pub peer_matches : Labels → Peer S → Bool
  peer_matches labels p = elim p.namespace_selector [
    | none ↦ false
    | some s ↦ elim (selector_of s) [ err _ ↦ false | ok matches ↦ matches labels ]
  ]

  unfoldable pub any_peer : Labels → List (Peer S) → Bool
  unfolding peer_matches
  any_peer labels [] = false
  any_peer labels (p ∷ ps) =
      let rest = any_peer labels ps in if peer_matches labels p then true else rest

  -- A rule without sources admits all.
  unfoldable pub rule_admits : Labels → Rule S → Bool
  unfolding any_peer
  rule_admits labels r = elim r.sources [ [] ↦ true | p ∷ ps ↦ any_peer labels (p ∷ ps) ]

  unfoldable pub any_rule : Labels → List (Rule S) → Bool
  unfolding rule_admits
  any_rule labels [] = false
  any_rule labels (r ∷ rs) =
      let rest = any_rule labels rs in if rule_admits labels r then true else rest

  -- The loop of `allows`, with `guarded` so far.
  unfoldable pub allows_from : Labels → String → Bool → List (NetworkPolicy S) → Bool × String
  unfolding any_rule guards
  allows_from labels target guarded [] = (not guarded, "")
  allows_from labels target guarded (p ∷ ps) =
      let skipped = allows_from labels target guarded ps in
      let rest = allows_from labels target true ps in
      if not (str_eq p.namespace target) || not (guards p)
      then skipped
      else if any_rule labels p.ingress
      then (true, p.name)
      else rest

  -- `allows`
  unfoldable pub allows :
      List (NetworkPolicy S) → List (String × Labels) → String → String → Bool × String
  unfolding allows_from
  allows policies catalogue source target =
      allows_from (labels_of catalogue source) target false policies

  unfoldable pub path_of :
      List (NetworkPolicy S) → List (String × Labels) → List Edge → String → String → NetworkPath
  unfolding allows
  path_of policies catalogue edges source target =
      let (allowed, by) = allows policies catalogue source target in
      record {
        source = source;
        target = target;
        is_allowed = allowed;
        is_observed = seen edges source target;
        allowed_by = by;
        verdict = verdict_of allowed (seen edges source target);
      }

  -- The inner loop, over the catalogue.
  unfoldable pub paths_to :
      List (NetworkPolicy S)
      → List (String × Labels)
      → List Edge
      → String
      → List (String × Labels)
      → List NetworkPath
  unfolding path_of
  paths_to policies catalogue edges target [] = []
  paths_to policies catalogue edges target ((source, _) ∷ ss) =
      let rest = paths_to policies catalogue edges target ss in
      if str_eq source target then rest else path_of policies catalogue edges source target ∷ rest

  unfoldable pub all_paths :
      List (NetworkPolicy S) → List (String × Labels) → List Edge → List String → List NetworkPath
  unfolding paths_to
  all_paths policies catalogue edges [] = []
  all_paths policies catalogue edges (t ∷ ts) =
      paths_to policies catalogue edges t catalogue ++ all_paths policies catalogue edges ts

-- The order of the paths: by target, then by source.
unfoldable pub path_less : NetworkPath → NetworkPath → Bool
path_less a b =
    if not (str_eq a.target b.target)
    then str_less a.target b.target
    else str_less a.source b.source

-- `Paths`, on the lists of namespaces and of policies that the API server gives.
unfoldable pub paths :
    {S : Type 0}
    → (S → Result (Labels → Bool))
    → Result (List KubeNamespace)
    → Result (List (NetworkPolicy S))
    → List String
    → List Edge
    → Result (List NetworkPath)
unfolding catalogue_of all_paths path_less
paths selector_of namespaces policies targets edges = elim namespaces [
  | err e ↦ err (concat "list namespaces: " e)
  | ok ns ↦ elim policies [
    | err e ↦ err (concat "list network policies: " e)
    | ok ps ↦
        ok (stable_sort path_less (all_paths selector_of ps (catalogue_of ns []) edges targets))
  ]
]
