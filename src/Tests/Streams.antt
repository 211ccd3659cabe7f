-- ===== src/Tests/Streams.antt =====
-- The event stream's and the reachability's theorems at concrete inputs (internal/api, and
-- internal/topology).
use marstack_govern.Prelude.{
  Bool, true, false, String, str_eq, List, [], ◌∷◌, ◌≡◌, ◌↔◌, ◌⊎◌, some, Result, ok, arith,
}
use marstack_govern.Api.Cursor.{format_uint}
use marstack_govern.Api.Hub.{new_hub, replay}
use marstack_govern.Api.Hub.History.{publish_all}
use marstack_govern.Api.Hub.Replay.{IsReplay, replay-history, replay-ahead}
use marstack_govern.Topology.Reachability.{NetworkPolicy, Labels, policy_ingress, allows, labels_of}
use marstack_govern.Topology.Reachability.Policies.{IsOpen, Admits, allows_iff}

abbrev history : List String
history = "created" ∷ "updated" ∷ "deleted" ∷ []

replay-history_example :
    IsReplay 2 1 history (replay (publish_all (new_hub 2) history) (format_uint 1))
replay-history_example = replay-history 2 1 history (omega arith) (omega arith) (omega arith)

replay-ahead_example :
    replay (publish_all (new_hub 2) history) (format_uint 9)
    ≡ record { events = []; complete = true }
replay-ahead_example =
    replay-ahead 2 9 history (omega arith) (omega arith) (omega arith) (omega arith)

-- A selector that wants one name.
abbrev named : String → Result (Labels → Bool)
named name = ok (λ ls. elim ls [ [] ↦ false | l ∷ _ ↦ str_eq l.1 name ])

abbrev policy : NetworkPolicy String
policy = record {
  namespace = "shop";
  name = "only-search";
  policy_types = policy_ingress ∷ [];
  ingress = (record { sources = (record { namespace_selector = some "search" }) ∷ [] }) ∷ [];
}

abbrev catalogue : List (String × Labels)
catalogue = ("search", ("kubernetes.io/metadata.name", "search") ∷ []) ∷ ("shop", []) ∷ []

allows_iff_example : ((allows named (policy ∷ []) catalogue "search" "shop").0 ≡ true) ↔ (
    IsOpen named "shop" (policy ∷ [])
    ⊎ ((by : String) × Admits named (labels_of catalogue "search") "shop" by (policy ∷ [])))
allows_iff_example = allows_iff named (policy ∷ []) catalogue "search" "shop"
