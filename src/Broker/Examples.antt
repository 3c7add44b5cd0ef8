-- ===== src/Broker/Examples.antt =====
-- Two pipelines on a bus that is stopped.
use crawl_viz.Base.{◌≡◌, refl, none, some, true, List, [], ◌∷◌, ◌++◌, sum_by}
use crawl_viz.Broker.{
  Event, Registry, consumers_of, subscribe, all_consumers, collect, add_consumers, shutdown,
  new_broker, BrokerStep, emitted, delivered, traffic,
}
use crawl_viz.Broker.Delivery.{fan_out, traffic-fan_out}
use crawl_viz.Broker.Consumers.{is, flag, is_subscribed, all_consumers_once}

abbrev registry : Registry
registry =
    subscribe 1 ("PageFetchedEvent" ∷ "StopCrawlEvent" ∷ [])
      (subscribe 0 ("PageFetchedEvent" ∷ []) [])

abbrev page : Event
page = record { kind = "PageFetchedEvent"; seq = some 0; tag = 7 }

abbrev the_end : Event
the_end = record { kind = "StopCrawlEvent"; seq = none; tag = 0 }

abbrev steps : List BrokerStep
steps = emitted page ∷ emitted the_end ∷ delivered ∷ emitted page ∷ delivered ∷ emitted page ∷ []

traffic-fan_out_example :
    let t = traffic steps (new_broker registry) in
    fan_out (new_broker registry).registry ((new_broker registry).event_bus ++ t.accepted)
    ≡ t.dispatched ++ fan_out (new_broker registry).registry t.state.event_bus
traffic-fan_out_example = traffic-fan_out steps (new_broker registry)

all_consumers_once_example :
    sum_by (is 1) (all_consumers registry) ≡ flag (is_subscribed registry 1)
all_consumers_once_example = all_consumers_once registry 1

told_to_stop : shutdown (λ p. true) (new_broker registry) ≡ 0 ∷ 1 ∷ []
unfolding shutdown all_consumers collect add_consumers new_broker subscribe consumers_of
told_to_stop = refl
