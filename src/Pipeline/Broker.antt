-- ===== src/Pipeline/Broker.antt =====
-- What the documentation of Kafka's transactional producer says of the calls of the crate rdkafka,
-- as an interface: which records a consumer that reads committed records sees.
use cdc_connector.Prelude.{◌≡◌, List, [], ◌∷◌, ◌++◌, none}
use cdc_connector.Producer.{FutureRecord, FutureProducer}

pub record Broker (K : FutureProducer) : Type 0 where
  -- The records of committed transactions, and those of the open one.
  pub visible : K.State → List FutureRecord
  pub pending : K.State → List FutureRecord
  pub begin_visible : (s : K.State) → visible (K.begin_transaction s).0 ≡ visible s
  pub begin_pending :
      (s : K.State) → (K.begin_transaction s).1 ≡ none → pending (K.begin_transaction s).0 ≡ []
  pub send_visible : (s : K.State) (r : FutureRecord) → visible (K.send s r).0 ≡ visible s
  pub send_pending :
      (s : K.State) (r : FutureRecord)
      → (K.send s r).1 ≡ none
      → pending (K.send s r).0 ≡ pending s ++ r ∷ []
  pub commit_visible :
      (s : K.State)
      → (K.commit_transaction s).1 ≡ none
      → visible (K.commit_transaction s).0 ≡ visible s ++ pending s
  pub abort_visible : (s : K.State) → visible (K.abort_transaction s).0 ≡ visible s

-- The producer behind records that are sent one after the other, and behind a transaction of them
-- with the record of its LSN.
abbrev pub after_sends : (K : FutureProducer) → K.State → List FutureRecord → K.State
after_sends K k [] = k
after_sends K k (r ∷ rs) = after_sends K (K.send k r).0 rs

abbrev pub before_commit :
    (K : FutureProducer) → K.State → List FutureRecord × FutureRecord → K.State
before_commit K k (rs, last) = (K.send (after_sends K (K.begin_transaction k).0 rs) last).0

abbrev pub after_transaction :
    (K : FutureProducer) → K.State → List FutureRecord × FutureRecord → K.State
after_transaction K k t = (K.commit_transaction (before_commit K k t)).0

-- These records, and these transactions, are taken: no call of this run is answered with an error.
abbrev pub Takes : (K : FutureProducer) → K.State → List FutureRecord → Type 0
Takes K k [] = Unit
Takes K k (r ∷ rs) = ((K.send k r).1 ≡ none) × Takes K (K.send k r).0 rs

abbrev pub TakesTransaction :
    (K : FutureProducer) → K.State → List FutureRecord × FutureRecord → Type 0
TakesTransaction K k (rs, last) =
    ((K.begin_transaction k).1 ≡ none)
    × Takes K (K.begin_transaction k).0 rs
    × ((K.send (after_sends K (K.begin_transaction k).0 rs) last).1 ≡ none)
    × ((K.commit_transaction (before_commit K k (rs, last))).1 ≡ none)

abbrev pub TakesTransactions :
    (K : FutureProducer) → K.State → List (List FutureRecord × FutureRecord) → Type 0
TakesTransactions K k [] = Unit
TakesTransactions K k (t ∷ ts) =
    TakesTransaction K k t × TakesTransactions K (after_transaction K k t) ts

-- The records of transactions.
abbrev pub flatten : List (List FutureRecord × FutureRecord) → List FutureRecord
flatten [] = []
flatten ((rs, last) ∷ ts) = (rs ++ last ∷ []) ++ flatten ts
