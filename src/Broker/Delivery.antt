-- ===== src/Broker/Delivery.antt =====
-- Events reach their subscribers once each and in order, and their numbers have no gaps.
use crawl_viz.Base.{
  ℕ, suc, ◌+◌, ◌≡◌, refl, sym, ap, ◌∙◌, ◌-◌, subst, true, false, none, some, List, [], ◌∷◌, ◌++◌,
  map, eq_iff, String, str_eq, if◌then◌else◌, append_assoc, append-nil, length, arith, Bool-cases,
  Option-cases, inl, inr,
}
use crawl_viz.Base.Texts.{lookup}
use crawl_viz.Broker.{
  Event, Registry, consumers_of, event_consumers, BrokerState, number, emit, deliver, BrokerStep,
  emitted, delivered, traffic,
}

-- The subscribers of a class: those of its first entry, if it has one.
abbrev pub subscribers : String → Registry → List ℕ
subscribers t [] = []
subscribers t ((u, ps) ∷ r) = if str_eq u t then ps else subscribers t r

event_consumers-subscribers :
    (e : Event) (r : Registry) → event_consumers e r ≡ subscribers e.kind r
unfolding event_consumers consumers_of lookup
event_consumers-subscribers e [] = refl
event_consumers-subscribers e ((u, ps) ∷ r) =
    ground (arith, event_consumers-subscribers e r, eq_iff u e.kind)

-- The dispatches that some events call for.
abbrev pub fan_out : Registry → List Event → List (ℕ × Event)
fan_out r [] = []
fan_out r (e ∷ es) = map (λ p. (p, e)) (subscribers e.kind r) ++ fan_out r es

fan_out-append :
    (r : Registry) (es fs : List Event) → fan_out r (es ++ fs) ≡ fan_out r es ++ fan_out r fs
fan_out-append r [] fs = refl
fan_out-append r (e ∷ es) fs =
    ap (λ l. map (λ p. (p, e)) (subscribers e.kind r) ++ l) (fan_out-append r es fs)
    ∙ sym (append_assoc (map (λ p. (p, e)) (subscribers e.kind r)) (fan_out r es) (fan_out r fs))

abbrev pub numbers : List Event → List ℕ
numbers [] = []
numbers (e ∷ es) = elim e.seq [ none ↦ numbers es | some n ↦ n ∷ numbers es ]

-- The numbers go on from `k`, one by one.
abbrev pub IsNumberedFrom : ℕ → List ℕ → Type 0
IsNumberedFrom k [] = Unit
IsNumberedFrom k (n ∷ ns) = (n ≡ suc k) × IsNumberedFrom (suc k) ns

emit-bus :
    (e : Event) (s : BrokerState)
    → ((emit e s).1.event_bus ≡ s.event_bus ++ (emit e s).0) × ((emit e s).1.registry ≡ s.registry)
unfolding emit
emit-bus e s = elim (Bool-cases s.running) [
  | inl on ↦ rw (on, emit) (refl, refl)
  | inr off ↦ rw (off, emit) (sym (append-nil s.event_bus), refl)
]

deliver_head :
    (es : List Event) (s : BrokerState)
    → s.event_bus ≡ es
    → (fan_out s.registry es ≡ (deliver s).0 ++ fan_out s.registry (deliver s).1.event_bus)
      × ((deliver s).1.registry ≡ s.registry)
      × ((deliver s).1.seq ≡ s.seq)
      × (s.running ≡ false → (deliver s).1.running ≡ false)
      × (length (deliver s).1.event_bus ≡ length es - 1)
unfolding deliver
deliver_head [] s h =
    rw (h, deliver)
      (ap (fan_out s.registry) (sym h), refl, refl, (λ e. e), omega (arith, ap length h))
deliver_head (e ∷ es) s h =
    rw (h, deliver)
      (
        ap (λ ps. map (λ p. (p, e)) ps ++ fan_out s.registry es)
            (sym (event_consumers-subscribers e s.registry)),
        refl,
        refl,
        (λ off. ground arith),
        omega arith,
      )

emit_stopped : (e : Event) (s : BrokerState) → s.running ≡ false → emit e s ≡ ([], s)
unfolding emit
emit_stopped e s off = simp off

numbers_plain : (e : Event) (es : List Event) → e.seq ≡ none → numbers (e ∷ es) ≡ numbers es
numbers_plain e es plain = ground (arith, plain)

emit_plain :
    (e : Event) (s : BrokerState)
    → s.running ≡ true
    → e.seq ≡ none
    → emit e s ≡ (e ∷ [], record s { event_bus = s.event_bus ++ e ∷ [] })
unfolding emit number
emit_plain e s on plain = ground (arith, on, plain)

abbrev emit_numbered : Event → BrokerState → List Event × BrokerState
emit_numbered e s =
    let e' : Event = record e { seq = some (suc s.seq) } in
    (e' ∷ [], record s { event_bus = s.event_bus ++ e' ∷ []; seq = suc s.seq })

emit-numbered :
    (e : Event) (s : BrokerState) {n : ℕ}
    → s.running ≡ true
    → e.seq ≡ some n
    → emit e s ≡ emit_numbered e s
unfolding emit number
emit-numbered e s on numbered = ground (arith, on, numbered)

-- Whatever is emitted and however the rounds of the loop fall in between: the events on the bus and
-- those that the broker then accepts are dispatched to each of their subscribers, once and in
-- order, up to those still on the bus; nothing else is dispatched.
pub traffic-fan_out :
    (steps : List BrokerStep) (s : BrokerState)
    → let t = traffic steps s in
      fan_out s.registry (s.event_bus ++ t.accepted)
      ≡ t.dispatched ++ fan_out s.registry t.state.event_bus
unfolding traffic
traffic-fan_out [] s = ap (fan_out s.registry) (append-nil s.event_bus)
traffic-fan_out (emitted e ∷ steps) s =
    let (es, s') = emit e s in
    let (bus, registry) = emit-bus e s in
    cc (
      bus,
      registry,
      traffic-fan_out steps s',
      append_assoc s.event_bus es (traffic steps s').accepted,
    )
traffic-fan_out (delivered ∷ steps) s =
    let (ds, s') = deliver s in
    let (here, registry, _, _, _) = deliver_head s.event_bus s refl in
    let t = traffic steps s' in
    cc (
      here,
      registry,
      traffic-fan_out steps s',
      fan_out-append s.registry s.event_bus t.accepted,
      fan_out-append s.registry s'.event_bus t.accepted,
      append_assoc ds (fan_out s.registry s'.event_bus) (fan_out s.registry t.accepted),
      append_assoc ds t.dispatched (fan_out s.registry t.state.event_bus),
    )

-- What the counter and the numbers of accepted events must be after an emit.
abbrev Numbered : BrokerState → List BrokerStep → List Event × BrokerState → Type 0
Numbered s steps r =
    let t = traffic steps r.1 in
    IsNumberedFrom s.seq (numbers (r.0 ++ t.accepted))
    × (t.state.seq ≡ s.seq + length (numbers (r.0 ++ t.accepted)))

-- The events that carry a number are numbered one by one, in the order in which they are accepted.
pub traffic-numbers :
    (steps : List BrokerStep) (s : BrokerState)
    → let t = traffic steps s in
      IsNumberedFrom s.seq (numbers t.accepted)
      × (t.state.seq ≡ s.seq + length (numbers t.accepted))
unfolding traffic
traffic-numbers [] s = (tt, omega arith)
traffic-numbers (emitted e ∷ steps) s = elim (Bool-cases s.running) [
  | inl on ↦ elim (Option-cases e.seq) [
    | inl plain ↦ subst (Numbered s steps) (sym (emit_plain e s on plain)) (
        let t = traffic steps (record s { event_bus = s.event_bus ++ e ∷ [] }) in
        subst (λ l. IsNumberedFrom s.seq l × (t.state.seq ≡ s.seq + length l))
          (sym (numbers_plain e t.accepted plain))
          (traffic-numbers steps (record s { event_bus = s.event_bus ++ e ∷ [] })))
    | inr (n, numbered) ↦
        (let r = traffic-numbers steps (emit_numbered e s).1 in
          subst (Numbered s steps) (sym (emit-numbered e s on numbered))
            ((refl, r.0), omega (arith, r.1)))
  ]
  | inr off ↦ subst (Numbered s steps) (sym (emit_stopped e s off)) (traffic-numbers steps s)
]
traffic-numbers (delivered ∷ steps) s =
    let (_, _, same, _, _) = deliver_head s.event_bus s refl in
    let t = traffic steps (deliver s).1 in
    subst
      (λ k. IsNumberedFrom k (numbers t.accepted) × (t.state.seq ≡ k + length (numbers t.accepted)))
      same (traffic-numbers steps (deliver s).1)

abbrev pub rounds : List BrokerStep → ℕ
rounds [] = 0
rounds (emitted e ∷ steps) = rounds steps
rounds (delivered ∷ steps) = suc (rounds steps)

-- Once the broker has stopped it accepts no event and does not start again, and each round of the
-- loop takes one event off the bus: the loop ends after as many rounds as there were events.
pub traffic_stopped :
    (steps : List BrokerStep) (s : BrokerState)
    → s.running ≡ false
    → let t = traffic steps s in
      (t.accepted ≡ [])
      × (t.state.running ≡ false)
      × (length t.state.event_bus ≡ length s.event_bus - rounds steps)
unfolding traffic
traffic_stopped [] s off = (refl, off, omega arith)
traffic_stopped (emitted e ∷ steps) s off = rw (emit_stopped e s off) (traffic_stopped steps s off)
traffic_stopped (delivered ∷ steps) s off =
    let (_, _, _, still, fewer) = deliver_head s.event_bus s refl in
    let r = traffic_stopped steps (deliver s).1 (still off) in (r.0, r.1, omega (arith, r.2, fewer))
