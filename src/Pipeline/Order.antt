-- ===== src/Pipeline/Order.antt =====
-- The orders in which a sink may read the topics of the producer of cdc-producer/src/main.rs.
use cdc_connector.Prelude.{
  ◌≡◌, refl, sym, ◌∙◌, ap, List, ◌∷◌, map, Text, text_beq, text_beq_iff, Bool-cases, inl, inr,
  if◌then◌else◌,
}
use cdc_connector.Sink.{Message}
use cdc_connector.Producer.Topics.{delivered}
use cdc_connector.Pipeline.Transaction.{Handed, record_of}
use cdc_connector.Pipeline.Delivered.{Interleaved, done, keep, swap, both}
use cdc_connector.Pipeline.Restart.{on_topic}

-- However the topics are interleaved, the messages of each one stay the same, in the same order.
on_topic-Interleaved :
    (topic : Text) (hs seen : List Handed)
    → Interleaved hs seen
    → on_topic topic (map record_of seen) ≡ on_topic topic (map record_of hs)
unfolding on_topic
on_topic-Interleaved topic hs seen done = refl
on_topic-Interleaved topic hs seen (keep {h = h} {hs = more} {hs' = more'} i) =
    ap
      (λ (ms : List Message).
        if text_beq topic (record_of h).topic then delivered (record_of h) ∷ ms else ms)
      (on_topic-Interleaved topic more more' i)
on_topic-Interleaved topic hs seen (swap {g = g} {h = h} apart) =
    elim (Bool-cases (text_beq topic (record_of g).topic)) [
      | inl at_g ↦ elim (Bool-cases (text_beq topic (record_of h).topic)) [
        | inl at_h ↦ absurd (
            apart (
              sym ((text_beq_iff topic (record_of g).topic).0 at_g)
              ∙ (text_beq_iff topic (record_of h).topic).0 at_h))
        | inr not_h ↦ rw (at_g, not_h) refl
      ]
      | inr not_g ↦ rw not_g refl
    ]
on_topic-Interleaved topic hs seen (both {hs' = middle} i j) =
    on_topic-Interleaved topic middle seen j ∙ on_topic-Interleaved topic hs middle i
