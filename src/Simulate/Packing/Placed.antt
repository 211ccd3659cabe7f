-- ===== src/Simulate/Packing/Placed.antt =====
-- What `Place` does with each pod and reports of each node (internal/simulate/packing.go).
use marstack_govern.Prelude.{
  ℕ, zero, suc, ◌≡◌, refl, sym, ap, subst, ◌∙◌, ℤ, ◌+ℤ◌, String, str_eq, str_eq_iff, Bool, true,
  false, ◌||◌, List, [], ◌∷◌, ◌++◌, length, select, set, get_elem?, All, All-get, All-set, none,
  some, Option-cases, Bool-cases, arith, stable_sort, All-stable_sort, Perm, Perm-stable_sort, inl,
  inr,
}
use marstack_govern.Prelude.Assoc.{lookup, assign, lookup-assign}
use marstack_govern.Simulate.Packing.BestFit.{IsBestFit, best_fit-IsBestFit}
use marstack_govern.Simulate.Packing.Capacity.{
  WithinCapacity, IsRequest, AllWithin, charge-WithinCapacity, charge-exact, All-select,
}
use marstack_govern.Simulate.Packing.{
  Node, Pod, fits, best_fit, charge, Progress, Placement, put, place_all, start, place, larger,
  free_map,
}
use mathlib.Core.List.{Permᴰ, perm_middle, perm_append_singleton, append-nil, append_assoc}
use mathlib.Core.List.Perm
use mathlib.Core.Logic.{∥∥₁_elim}
use native.Mathlib.Nat.{ℕ_set}

-- What was allocated once these pods are added, with no wrap-around.
abbrev pub load : (Pod → ℤ) → ℤ → List Pod → ℤ
load amount before [] = before
load amount before (pod ∷ pods) = load amount before pods +ℤ amount pod

-- A node after these pods were placed on it: their requests are added, the rest is as before.
pub record IsLoaded (before : Node) (pods : List Pod) (after : Node) : Type 0 where
  pub same_name : after.name ≡ before.name
  pub same_cpu : after.allocatable_cpu ≡ before.allocatable_cpu
  pub same_mem : after.allocatable_mem ≡ before.allocatable_mem
  pub loaded_cpu : after.allocated_cpu ≡ load (λ p. p.cpu) before.allocated_cpu pods
  pub loaded_mem : after.allocated_mem ≡ load (λ p. p.mem) before.allocated_mem pods

-- The same of a list of nodes, each with the pods that were placed on it.
pub data AreLoaded : List Node → List (List Pod) → List Node → Type 0 where
  none_loaded : AreLoaded [] [] []
  one_more :
      {n : Node} {g : List Pod} {m : Node} {ns : List Node} {gs : List (List Pod)} {ms : List Node}
      → IsLoaded n g m
      → AreLoaded ns gs ms
      → AreLoaded (n ∷ ns) (g ∷ gs) (m ∷ ms)

-- The pods of all nodes.
abbrev pub on_nodes : List (List Pod) → List Pod
on_nodes [] = []
on_nodes (g ∷ gs) = g ++ on_nodes gs

abbrev no_pods : List Node → List (List Pod)
no_pods [] = []
no_pods (n ∷ ns) = [] ∷ no_pods ns

no_pods-AreLoaded : (ns : List Node) → AreLoaded ns (no_pods ns) ns
no_pods-AreLoaded [] = none_loaded
no_pods-AreLoaded (n ∷ ns) =
    one_more
      (record {
        same_name = refl;
        same_cpu = refl;
        same_mem = refl;
        loaded_cpu = refl;
        loaded_mem = refl;
      })
      (no_pods-AreLoaded ns)

on_nodes-no_pods : (ns : List Node) → on_nodes (no_pods ns) ≡ []
on_nodes-no_pods [] = refl
on_nodes-no_pods (n ∷ ns) = on_nodes-no_pods ns

-- The pod is added to the pods of node `i`.
abbrev add_at : ℕ → Pod → List (List Pod) → List (List Pod)
add_at i pod [] = []
add_at zero pod (g ∷ gs) = (pod ∷ g) ∷ gs
add_at (suc i) pod (g ∷ gs) = g ∷ add_at i pod gs

charge-IsLoaded :
    (before after : Node) (g : List Pod) (pod : Pod)
    → IsLoaded before g after
    → IsRequest pod
    → WithinCapacity after
    → fits pod after ≡ true
    → IsLoaded before (pod ∷ g) (charge pod after)
unfolding charge
charge-IsLoaded before after g pod l r w fit =
    let (cpu, mem) = charge-exact pod after r w fit in
    record {
      same_name = l.same_name;
      same_cpu = l.same_cpu;
      same_mem = l.same_mem;
      loaded_cpu = cpu ∙ ap (λ a. a +ℤ pod.cpu) l.loaded_cpu;
      loaded_mem = mem ∙ ap (λ a. a +ℤ pod.mem) l.loaded_mem;
    }

charge-AreLoaded :
    {ns ms : List Node} {gs : List (List Pod)} (i : ℕ) (node : Node) (pod : Pod)
    → AreLoaded ns gs ms
    → AllWithin ms
    → get_elem? ms i ≡ some node
    → IsRequest pod
    → fits pod node ≡ true
    → AreLoaded ns (add_at i pod gs) (set ms i (charge pod node))
charge-AreLoaded i node pod none_loaded w h r fit = cc
charge-AreLoaded zero node pod (one_more {n = n} {g = g} {m = m} l ls) w h r fit =
    let same : m ≡ node = cc in
    one_more
      (subst (λ x. IsLoaded n (pod ∷ g) (charge pod x)) same
        (charge-IsLoaded n m g pod l r w.0 (ap (fits pod) same ∙ fit)))
      ls
charge-AreLoaded (suc i) node pod (one_more l ls) w h r fit =
    one_more l (charge-AreLoaded i node pod ls w.1 h r fit)

on_nodes-add_at :
    {ns ms : List Node} {gs : List (List Pod)} (i : ℕ) {node : Node} (pod : Pod)
    → AreLoaded ns gs ms
    → get_elem? ms i ≡ some node
    → Perm (on_nodes (add_at i pod gs)) (pod ∷ on_nodes gs)
on_nodes-add_at i pod none_loaded h = cc
on_nodes-add_at zero pod (one_more l ls) h = Perm.rfl
on_nodes-add_at (suc i) pod (one_more {g = g} {gs = gs} l ls) h =
    Perm.trans (Perm.append_left g (on_nodes-add_at i pod ls h)) (perm_middle g (on_nodes gs))

length-Permᴰ : {xs ys : List Pod} → Permᴰ xs ys → length xs ≡ length ys
length-Permᴰ Permᴰ.nil = refl
length-Permᴰ (Permᴰ.cons same p) = ap suc (length-Permᴰ p)
length-Permᴰ (Permᴰ.swap a b) = refl
length-Permᴰ (Permᴰ.trans p q) = length-Permᴰ p ∙ length-Permᴰ q

-- Permuted lists have one length.
Perm-length : {xs ys : List Pod} → Perm xs ys → length xs ≡ length ys
Perm-length p = ∥∥₁_elim p (ℕ_set _ _) length-Permᴰ

-- Where the loop of `Place` stands once it has seen the pods `seen`, from the nodes `first`.
record IsProgress (first : List Node) (seen : List Pod) (p : Progress) : Type 0 where
  groups : List (List Pod)
  loaded : AreLoaded first groups p.remaining
  within : AllWithin p.remaining
  every_pod : Perm (on_nodes groups ++ p.unplaced) seen
  counted : p.placed ≡ length (on_nodes groups)

-- The loop goes on with a pod that fits no node.
skip-IsProgress :
    (first : List Node) (seen : List Pod) (p : Progress) (pod : Pod)
    → IsProgress first seen p
    → IsProgress first (pod ∷ seen) (put pod p none)
unfolding put
skip-IsProgress first seen p pod s = record {
  groups = s.groups;
  loaded = s.loaded;
  within = s.within;
  every_pod =
      Perm.trans
        (subst (λ pods. Perm (on_nodes s.groups ++ (p.unplaced ++ (pod ∷ []))) pods)
          (sym (append_assoc (on_nodes s.groups) p.unplaced (pod ∷ []))) Perm.rfl)
        (Perm.trans (perm_append_singleton pod (on_nodes s.groups ++ p.unplaced))
          (Perm.cons pod s.every_pod));
  counted = s.counted;
}

-- The loop goes on with a pod that is placed on node `i`.
take-IsProgress :
    (first : List Node) (seen : List Pod) (p : Progress) (pod : Pod) (i : ℕ) (node : Node)
    → IsProgress first seen p
    → IsRequest pod
    → get_elem? p.remaining i ≡ some node
    → fits pod node ≡ true
    → IsProgress first (pod ∷ seen) (put pod p (some i))
unfolding put
take-IsProgress first seen p pod i node s request here fit =
    let added = on_nodes-add_at i pod s.loaded here in
    rw (put, here)
      (record {
        groups = add_at i pod s.groups;
        loaded = charge-AreLoaded i node pod s.loaded s.within here request fit;
        within = All-set WithinCapacity p.remaining i (charge pod node) s.within (
            charge-WithinCapacity pod node request
              (All-get WithinCapacity p.remaining i s.within here) fit);
        every_pod = Perm.trans (Perm.append_right p.unplaced added) (Perm.cons pod s.every_pod);
        counted = omega (arith, s.counted, Perm-length added);
      })

put-IsProgress :
    (first : List Node) (seen : List Pod) (p : Progress) (pod : Pod)
    → IsProgress first seen p
    → IsRequest pod
    → IsProgress first (pod ∷ seen) (put pod p (best_fit p.remaining pod))
put-IsProgress first seen p pod s request =
    let answer = best_fit-IsBestFit p.remaining pod in
    elim (Option-cases (best_fit p.remaining pod)) [
      | inl none_fits ↦
          subst (λ o. IsProgress first (pod ∷ seen) (put pod p o)) (sym none_fits)
            (skip-IsProgress first seen p pod s)
      | inr (i, at) ↦
          let (node, here, room, _) = subst (IsBestFit p.remaining pod) at answer in
          subst (λ o. IsProgress first (pod ∷ seen) (put pod p o)) (sym at)
            (take-IsProgress first seen p pod i node s request here room)
    ]

more_seen :
    (first : List Node) {seen seen' : List Pod} (p : Progress)
    → Perm seen seen'
    → IsProgress first seen p
    → IsProgress first seen' p
more_seen first p same s = record {
  groups = s.groups;
  loaded = s.loaded;
  within = s.within;
  every_pod = Perm.trans s.every_pod same;
  counted = s.counted;
}

place_all-IsProgress :
    (first : List Node) (seen : List Pod) (p : Progress) (pods : List Pod)
    → IsProgress first seen p
    → All IsRequest pods
    → IsProgress first (pods ++ seen) (place_all p pods)
unfolding place_all
place_all-IsProgress first seen p [] s requests = s
place_all-IsProgress first seen p (pod ∷ pods) s requests =
    more_seen first (place_all p (pod ∷ pods)) (perm_middle pods seen) (
      place_all-IsProgress first (pod ∷ seen) (put pod p (best_fit p.remaining pod)) pods
        (put-IsProgress first seen p pod s requests.0) requests.1)

-- Whether a node of the list has this name.
abbrev pub is_named : String → List Node → Bool
is_named name [] = false
is_named name (n ∷ ns) = str_eq n.name name || is_named name ns

-- A node is found under its name, where no later node has that name.
abbrev pub AreReported : List (String × Node) → List Node → Type 0
AreReported m [] = Unit
AreReported m (n ∷ ns) = (is_named n.name ns ≡ false → lookup n.name m ≡ some n) × AreReported m ns

lookup-free_map :
    (name : String) (nodes : List Node) (m : List (String × Node))
    → is_named name nodes ≡ false
    → lookup name (free_map nodes m) ≡ lookup name m
unfolding free_map
lookup-free_map name [] m h = refl
lookup-free_map name (n ∷ ns) m h = elim (Bool-cases (str_eq n.name name)) [
  | inl p ↦ absurd (let q = rw p at h in cc)
  | inr p ↦
      lookup-free_map name ns (assign n.name n m) (rw p at h)
      ∙ lookup-assign n.name name n m
      ∙ rw p refl
]

lookup-assign_own :
    (n : Node) (m : List (String × Node)) → lookup n.name (assign n.name n m) ≡ some n
lookup-assign_own n m =
    lookup-assign n.name n.name n m ∙ rw ((str_eq_iff n.name n.name).1 refl) refl

free_map-AreReported :
    (nodes : List Node) (m : List (String × Node)) → AreReported (free_map nodes m) nodes
unfolding free_map
free_map-AreReported [] m = tt
free_map-AreReported (n ∷ ns) m = (
  λ last. lookup-free_map n.name ns (assign n.name n m) last ∙ lookup-assign_own n m,
  free_map-AreReported ns (assign n.name n m),
)

-- What `Place` answers, of these nodes and pods.
pub record IsPlacement (nodes : List Node) (pods : List Pod) (p : Placement) : Type 0 where
  pub groups : List (List Pod)
  pub after : List Node
  pub loaded : AreLoaded (select (λ n. n.schedulable) nodes) groups after
  pub within : AllWithin after
  pub every_pod : Perm (on_nodes groups ++ p.unplaced) pods
  pub counted : p.placed ≡ length (on_nodes groups)
  pub reported : AreReported p.free_after after

start-IsProgress :
    (nodes : List Node)
    → AllWithin nodes
    → IsProgress (select (λ n. n.schedulable) nodes) [] (start nodes)
unfolding start
start-IsProgress nodes within =
    let first = select (λ n. n.schedulable) nodes in
    record {
      groups = no_pods first;
      loaded = no_pods-AreLoaded first;
      within = All-select (λ n. n.schedulable) nodes within;
      every_pod = subst (λ ps. Perm (ps ++ []) []) (sym (on_nodes-no_pods first)) Perm.rfl;
      counted = ap length (sym (on_nodes-no_pods first));
    }

-- From nodes within their capacity, and pods that request no negative amount, `Place` puts pods on
-- the schedulable nodes such that every pod is on one node or reported as unplaced, each once, and
-- those placed are counted. A node has then allocated what it had and the requests of its pods, CPU
-- and memory, without wrap-around and within its capacity; it is reported so under its name,
-- where no later node has that name.
pub place-IsPlacement :
    (nodes : List Node) (pods : List Pod)
    → AllWithin nodes
    → All IsRequest pods
    → IsPlacement nodes pods (place nodes pods)
unfolding place
place-IsPlacement nodes pods within requests =
    let sorted = stable_sort larger pods in
    let first = select (λ n. n.schedulable) nodes in
    let end =
      place_all-IsProgress first [] (start nodes) sorted (start-IsProgress nodes within)
        (All-stable_sort larger IsRequest pods requests) in
    record {
      groups = end.groups;
      after = (place_all (start nodes) sorted).remaining;
      loaded = end.loaded;
      within = end.within;
      every_pod =
          Perm.trans end.every_pod
            (subst (λ ps. Perm ps pods) (sym (append-nil sorted)) (Perm-stable_sort larger pods));
      counted = end.counted;
      reported = free_map-AreReported (place_all (start nodes) sorted).remaining [];
    }
