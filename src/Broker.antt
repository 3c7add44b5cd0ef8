-- ===== src/Broker.antt =====
-- core/event_broker.py and core/event_registry.py: the bus between the pipelines.
-- A pipeline is a number (its identity), an event's class is its name; `seq` is `none` for a class
-- without that field, and `tag` stands for the other fields. The registry answers a class that it
-- does not know with no pipelines (the empty entry that defaultdict then makes is left out).
pub mod Delivery
pub mod Consumers
mod Examples
use crawl_viz.Base.{
  ℕ, zero, suc, ◌+◌, String, Bool, true, false, Option, none, some, List, [], ◌∷◌, ◌++◌, map, keep,
  ◌==◌, if◌then◌else◌, str_eq,
}
use crawl_viz.Base.Texts.{Dict, lookup, insert}

pub record Event : Type 0 where
  pub kind : String
  pub seq : Option ℕ
  pub tag : ℕ

abbrev pub Registry : Type 0
Registry = Dict (List ℕ)

-- `self.registry[event_type]`
pub consumers_of : String → Registry → List ℕ
unfolding lookup
consumers_of event_type r = elim (lookup event_type r) [ none ↦ [] | some ps ↦ ps ]

pub event_consumers : Event → Registry → List ℕ
unfolding consumers_of
event_consumers e r = consumers_of e.kind r

pub subscribe : ℕ → List String → Registry → Registry
unfolding consumers_of insert
subscribe pipeline [] r = r
subscribe pipeline (t ∷ ts) r =
    subscribe pipeline ts (insert t (consumers_of t r ++ pipeline ∷ []) r)

abbrev pub seen_before : List ℕ → ℕ → Bool
seen_before [] p = false
seen_before (q ∷ qs) p = if q == p then true else seen_before qs p

-- The inner loop of `all_consumers`; the pipelines found so far are the ones seen.
pub add_consumers : List ℕ → List ℕ → List ℕ
add_consumers consumers [] = consumers
add_consumers consumers (p ∷ ps) =
    add_consumers (if seen_before consumers p then consumers else consumers ++ p ∷ []) ps

pub collect : List ℕ → Registry → List ℕ
unfolding add_consumers
collect consumers [] = consumers
collect consumers ((t, ps) ∷ r) = collect (add_consumers consumers ps) r

pub all_consumers : Registry → List ℕ
unfolding collect
all_consumers r = collect [] r

pub record BrokerState : Type 0 where
  pub event_bus : List Event
  pub registry : Registry
  pub running : Bool
  pub seq : ℕ

unfoldable pub new_broker : Registry → BrokerState
new_broker registry = record { event_bus = []; registry = registry; running = true; seq = 0 }

-- The event as it is put on the bus, and the counter after it.
pub number : Event → ℕ → Event × ℕ
number e seq = elim e.seq [
  | none ↦ (e, seq)
  | some _ ↦ (record e { seq = some (suc seq) }, suc seq)
]

-- The events that went on the bus (one, or none after the stop).
pub emit : Event → BrokerState → List Event × BrokerState
unfolding number
emit e s =
    let (e', seq) = number e s.seq in
    if s.running
    then (e' ∷ [], record s { event_bus = s.event_bus ++ e' ∷ []; seq = seq })
    else ([], s)

abbrev pub is_stop : Event → Bool
is_stop e = str_eq e.kind "StopCrawlEvent"

-- One round of `start`: the dispatches (pipeline, event) of the event at the head of the bus.
pub deliver : BrokerState → List (ℕ × Event) × BrokerState
unfolding event_consumers
deliver s = elim s.event_bus [
  | [] ↦ ([], s)
  | e ∷ rest ↦ (
    map (λ p. (p, e)) (event_consumers e s.registry),
    record s { event_bus = rest; running = if is_stop e then false else s.running },
  )
]

pub data BrokerStep : Type 0 where
  emitted : Event → BrokerStep
  delivered : BrokerStep

-- What went on the bus, what was dispatched, and the state, after some emits and rounds.
pub record Traffic : Type 0 where
  pub accepted : List Event
  pub dispatched : List (ℕ × Event)
  pub state : BrokerState

pub traffic : List BrokerStep → BrokerState → Traffic
unfolding emit deliver
traffic [] s = record { accepted = []; dispatched = []; state = s }
traffic (emitted e ∷ steps) s =
    let (es, s') = emit e s in let t = traffic steps s' in record t { accepted = es ++ t.accepted }
traffic (delivered ∷ steps) s =
    let (ds, s') = deliver s in
    let t = traffic steps s' in record t { dispatched = ds ++ t.dispatched }

-- `_shutdown`: the pipelines that are told to stop, in order; one without a `stop` is passed over,
-- and one whose `stop` raises does not keep the others from theirs.
pub shutdown : (ℕ → Bool) → BrokerState → List ℕ
unfolding all_consumers
shutdown has_stop s = keep has_stop (all_consumers s.registry)
