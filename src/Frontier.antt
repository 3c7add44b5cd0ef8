-- ===== src/Frontier.antt =====
-- pipelines/frontier_queue.py: the queue of nodes that wait for their fetch or for their scoring.
-- heapq keeps the entries in an order of its own, which nobody sees; of it, the model has that the least
-- entry comes out. A key is a whole number of millionths, and `none` is minus infinity. Put and get never
-- wait here for room: a bounded queue only delays its puts.
pub mod Ordered
mod Examples
use crawl_viz.Base.{
  ℕ, suc, Bool, true, false, ◌&&◌, ◌||◌, not, Option, none, some, List, [], ◌∷◌, ltb, if◌then◌else◌,
}
use crawl_viz.Base.Int.{ℤ, pos, ◌-ℤ◌, ltb_ℤ}
use crawl_viz.Models.{Node}
use crawl_viz.Pool.{QueueItem, work, shutdown}

pub record Entry : Type 0 where
  pub key : Option ℤ
  pub seq : ℕ
  pub item : QueueItem Node

-- `_queue`, and the next value of `_seq`.
pub record FrontierQueue : Type 0 where
  pub heap : List Entry
  pub next_seq : ℕ

abbrev pub new_frontier : FrontierQueue
new_frontier = record { heap = []; next_seq = 0 }

-- `-inf` if the item has no priority.
pub key_of : QueueItem Node → Option ℤ
key_of shutdown = none
key_of (work node) = some (pos 0 -ℤ node.priority)

pub key_ltb : Option ℤ → Option ℤ → Bool
key_ltb none none = false
key_ltb none (some b) = true
key_ltb (some a) none = false
key_ltb (some a) (some b) = ltb_ℤ a b

-- The order of the tuples `(key, seq, item)`; no two have the same `seq`.
pub before : Entry → Entry → Bool
unfolding key_ltb
before e f = key_ltb e.key f.key || (not (key_ltb f.key e.key) && ltb e.seq f.seq)

-- The least of the entries, and the others.
pub heappop : Entry → List Entry → Entry × List Entry
unfolding before
heappop e [] = (e, [])
heappop e (f ∷ fs) =
    let (least, rest) = heappop f fs in if before e least then (e, f ∷ fs) else (least, e ∷ rest)

pub put : QueueItem Node → FrontierQueue → FrontierQueue
unfolding key_of
put item q = record {
  heap = record { key = key_of item; seq = q.next_seq; item = item } ∷ q.heap;
  next_seq = suc q.next_seq;
}

-- `none`: the queue is empty, and the caller waits.
pub get : FrontierQueue → Option (QueueItem Node × FrontierQueue)
unfolding heappop
get q = elim q.heap [
  | [] ↦ none
  | e ∷ es ↦ (let (least, rest) = heappop e es in some (least.item, record q { heap = rest }))
]

pub data FrontierStep : Type 0 where
  added : QueueItem Node → FrontierStep
  taken : FrontierStep

-- The items that came out, in order, and the queue after the steps.
pub frontier_run : List FrontierStep → FrontierQueue → List (QueueItem Node) × FrontierQueue
unfolding put get
frontier_run [] q = ([], q)
frontier_run (added item ∷ steps) q = frontier_run steps (put item q)
frontier_run (taken ∷ steps) q = elim (get q) [
  | none ↦ frontier_run steps q
  | some (item, q') ↦ (let (items, q'') = frontier_run steps q' in (item ∷ items, q''))
]
