-- ===== src/Api/Hub.antt =====
-- internal/api/hub.go: the hub that numbers the events, keeps the latest of them and replays them.
-- `P` is what an event carries. A call is one step: the delivery to the subscribers' channels, which
-- drops what a full channel cannot take, is part of the call.
pub mod History
pub mod Replay
use marstack_govern.Prelude.{
  ℕ, zero, suc, ◌+◌, ◌-◌, ◌%◌, ◌^◌, ◌≡◌, ltb, leb, ◌==◌, Bytes, Bool, true, false, not, List, [],
  ◌∷◌, ◌++◌, length, drop, Result, ok, err, if◌then◌else◌,
}
use marstack_govern.Api.Cursor.{format_uint, parse_uint}

pub record StreamEvent (P : Type 0) : Type 0 where
  pub cursor : Bytes
  pub payload : P

pub record Subscriber (P : Type 0) : Type 0 where
  pub id : ℕ
  pub stream : List (StreamEvent P)
  pub capacity : ℕ
  pub allow : StreamEvent P → Bool

pub record Hub (P : Type 0) : Type 0 where
  pub next : ℕ
  pub ring : List (StreamEvent P)
  pub ring_size : ℕ
  pub subscribers : List (Subscriber P)
  pub next_sub_id : ℕ

pub record Replayed (P : Type 0) : Type 0 where
  pub events : List (StreamEvent P)
  pub complete : Bool

abbrev pub default_replay_buffer : ℕ
default_replay_buffer = 1024

module _ {P : Type 0} where
  -- `NewHub`; a size that is not positive is 0 here.
  unfoldable pub new_hub : ℕ → Hub P
  new_hub replay_buffer = record {
    next = 0;
    ring = [];
    ring_size = if replay_buffer == 0 then default_replay_buffer else replay_buffer;
    subscribers = [];
    next_sub_id = 0;
  }

  -- The send to one channel, which a full channel drops.
  unfoldable pub send : StreamEvent P → Subscriber P → Subscriber P
  send e s =
      if not (s.allow e)
      then s
      else if ltb (length s.stream) s.capacity
      then record s { stream = s.stream ++ (e ∷ []) }
      else s

  unfoldable pub send_all : StreamEvent P → List (Subscriber P) → List (Subscriber P)
  unfolding send
  send_all e [] = []
  send_all e (s ∷ ss) = send e s ∷ send_all e ss

  -- `append(h.ring, event)`, cut to the ring's size.
  unfoldable pub keep : ℕ → List (StreamEvent P) → List (StreamEvent P)
  keep size ring = if ltb size (length ring) then drop (length ring - size) ring else ring

  -- `Publish`; the cursor of the event that is given does not matter.
  unfoldable pub publish : Hub P → P → Hub P
  unfolding keep send_all
  publish h payload =
      let next = (h.next + 1) % 2 ^ 64 in
      let event : StreamEvent P = record { cursor = format_uint next; payload = payload } in
      record h {
        next = next;
        ring = keep h.ring_size (h.ring ++ (event ∷ []));
        subscribers = send_all event h.subscribers;
      }

  -- The loop of `replay`: the events after the cursor.
  unfoldable pub after_cursor : ℕ → List (StreamEvent P) → List (StreamEvent P)
  after_cursor after [] = []
  after_cursor after (e ∷ es) =
      let rest = after_cursor after es in
      elim (parse_uint e.cursor) [
        | err _ ↦ rest
        | ok cursor ↦ if ltb after cursor then e ∷ rest else rest
      ]

  unfoldable pub replay_ring : ℕ → ℕ → List (StreamEvent P) → Replayed P
  unfolding after_cursor
  replay_ring next after [] = record { events = []; complete = after == next }
  replay_ring next after (e ∷ es) = elim (parse_uint e.cursor) [
    | err _ ↦ record { events = []; complete = false }
    | ok oldest ↦
        if ltb ((after + 1) % 2 ^ 64) oldest
        then record { events = []; complete = false }
        else record { events = after_cursor after (e ∷ es); complete = true }
  ]

  -- `replay`
  unfoldable pub replay : Hub P → Bytes → Replayed P
  unfolding replay_ring
  replay h [] = record { events = []; complete = true }
  replay h (b ∷ bs) = elim (parse_uint (b ∷ bs)) [
    | err _ ↦ record { events = []; complete = false }
    | ok after ↦ replay_ring h.next after h.ring
  ]

  unfoldable pub allowed : (StreamEvent P → Bool) → List (StreamEvent P) → List (StreamEvent P)
  allowed allow [] = []
  allowed allow (e ∷ es) = let rest = allowed allow es in if allow e then e ∷ rest else rest

  -- `Subscribe`, with no event published between the replay and the registration: the hub with the
  -- new subscriber, its id, and whether the replay is complete.
  unfoldable pub subscribe : Hub P → Bytes → (StreamEvent P → Bool) → Hub P × ℕ × Bool
  unfolding replay allowed
  subscribe h from allow =
      let r = replay h from in
      (
        record h {
          next_sub_id = h.next_sub_id + 1;
          subscribers =
              h.subscribers
              ++ (record {
                id = h.next_sub_id;
                stream = allowed allow r.events;
                capacity = length r.events + 64;
                allow = allow;
              }
                  ∷ []);
        },
        h.next_sub_id,
        r.complete,
      )

  unfoldable pub without : ℕ → List (Subscriber P) → List (Subscriber P)
  without id [] = []
  without id (s ∷ ss) = let rest = without id ss in if s.id == id then rest else s ∷ rest

  -- The end of a subscription's context.
  unfoldable pub unsubscribe : Hub P → ℕ → Hub P
  unfolding without
  unsubscribe h id = record h { subscribers = without id h.subscribers }
