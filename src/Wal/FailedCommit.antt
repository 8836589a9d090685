-- ===== src/Wal/FailedCommit.antt =====
-- What the loop of cdc-wal-reader/src/lib.rs does behind a commit that the producer refuses.
use cdc_connector.Prelude.{ℕ, ◌≡◌, refl, ok, true, false, List, ◌∷◌, some, Text}
use cdc_connector.Decoder.Errors.{Utf8}
use cdc_connector.Wal.{
  Producer, begin, commit, Received, event, Session, after_commit, begin_transaction, handle,
  wal_loop,
}
use cdc_connector.Wal.Recorded.{Call, Log, recorded}

-- A commit inside a transaction that the producer refuses is not followed by an abort: with a begin
-- as the next event the calls are the commit and then a start, and the LSN is not reported as
-- applied.
pub wal_loop-failed_commit :
    (P : Producer) (valid : Utf8) (s : Session (Log P.State)) (lsn end_lsn : ℕ) (x : Text)
    (rest : List Received)
    → s.in_transaction ≡ true
    → (P.commit_transaction s.producer.inner end_lsn).1 ≡ some x
    → wal_loop (recorded P) valid s (event (commit lsn end_lsn) ∷ event begin ∷ rest)
      ≡ wal_loop
          (recorded P)
          valid
          (record s {
            producer = record {
              inner = (P.start_transaction (P.commit_transaction s.producer.inner end_lsn).0).0;
              calls = Call.start ∷ Call.commit end_lsn (some x) ∷ s.producer.calls;
            };
            in_transaction = true;
          })
          rest
unfolding wal_loop
wal_loop-failed_commit P valid s lsn end_lsn x rest t refused = rw (committed, begun) refl
  where
    after : Session (Log P.State)
    after = record s {
      producer = record {
        inner = (P.commit_transaction s.producer.inner end_lsn).0;
        calls = Call.commit end_lsn (some x) ∷ s.producer.calls;
      };
      in_transaction = false;
    }

    committed : handle (recorded P) valid s (commit lsn end_lsn) ≡ ok after
    committed = unfold handle after_commit in rw t (rw refused refl)

    begun :
        handle (recorded P) valid after begin
        ≡ ok (record s {
          producer = record {
            inner = (P.start_transaction (P.commit_transaction s.producer.inner end_lsn).0).0;
            calls = Call.start ∷ Call.commit end_lsn (some x) ∷ s.producer.calls;
          };
          in_transaction = true;
        })
    begun = unfold handle begin_transaction in refl
