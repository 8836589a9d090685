-- ===== src/Sink/Events.antt =====
-- Several events, one after the other, in a sink (cdc-sink/src/lib.rs).
use cdc_connector.Prelude.{◌≡◌, List, [], ◌∷◌, ok}
use cdc_connector.Avro.Event.{ChangeEvent}
use cdc_connector.Sink.{KafkaSink}

module _ (S : KafkaSink) where
  -- The sink behind the events.
  abbrev pub after_events : S.State → List ChangeEvent → S.State
  after_events s [] = s
  after_events s (e ∷ es) = after_events (S.on_event s e).0 es

  -- The sink takes each of the events without an error.
  abbrev pub TakesAll : S.State → List ChangeEvent → Type 0
  TakesAll s [] = Unit
  TakesAll s (e ∷ es) = ((S.on_event s e).1 ≡ ok tt) × TakesAll (S.on_event s e).0 es
