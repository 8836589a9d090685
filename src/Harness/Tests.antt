-- ===== src/Harness/Tests.antt =====
-- What the integration tests share, at a host whose state is its time in milliseconds.
use cdc_connector.Prelude.{ℕ, ◌+◌, ◌≡◌, refl, arith, leb, some, none, codes, inl, inr}
use cdc_connector.Postgres.Statements.{decimal}
use cdc_connector.Harness.{
  Host, Ended, metrics_url, wait_for_sink_row, not_sink_row, two_seconds, wait_loop, returned,
}
use cdc_connector.Harness.Waiting.{Steady, opposite, not_sink_row-wait_for_sink_row}

-- The row is there from 1.2 seconds on.
abbrev host : Host
host = record {
  State = ℕ;
  Child = ℕ;
  now = λ s. s;
  sleep = λ s n. s + n;
  query_opt = λ s sql. (s + 3, inr (leb 1200 s));
  batch_execute = λ s sql. (s, none);
  spawn = λ s cmd. (s, inr 0);
  kill = λ s child. (s, none);
  http_get = λ s url. (s, inl url);
}

host-Steady : Steady host
host-Steady = record {
  slept = λ s n. omega arith;
  queried = λ s sql. omega arith;
  answered = λ s sql. (leb 1200 s, refl);
}

not_sink_row-wait_for_sink_row_example :
    (s' : ℕ) × (e : Ended) × (wait_for_sink_row host 6 0
        (codes "users")
        (codes "name = 'a'")
        two_seconds
      ≡ some (s', e))
    × (not_sink_row host 6 0 (codes "users") (codes "name = 'a'") two_seconds
        ≡ some (s', opposite e))
not_sink_row-wait_for_sink_row_example =
    not_sink_row-wait_for_sink_row host 5 0 (codes "users") (codes "name = 'a'") two_seconds
      host-Steady (omega arith)

-- The fourth query finds it.
waited :
    wait_for_sink_row host 6 0 (codes "users") (codes "name = 'a'") two_seconds
    ≡ some (1512, returned)
unfolding wait_for_sink_row wait_loop
waited = refl

metrics_of_producer : metrics_url 9001 ≡ codes "http://localhost:9001/metrics"
unfolding metrics_url decimal
metrics_of_producer = refl
