-- ===== src/Harness/Waiting.antt =====
-- `wait_for_sink_row` and `not_sink_row` of cdc-integration-tests/src/lib.rs come to an end, and are
-- each other's opposite.
use cdc_connector.Prelude.{
  ℕ, zero, suc, ◌+◌, ◌-◌, ◌*◌, ◌<◌, ◌≤◌, ◌≡◌, arith, ltb, Bool, true, false, some, Text, inl, inr,
  Bool-cases,
}
use cdc_connector.Harness.{
  Host, Ended, returned, panicked, wait_loop, not_loop, wait_for_sink_row, not_sink_row, row_query,
}

-- Time goes on, by what is slept at least, and queries are answered.
pub record Steady (H : Host) : Type 0 where
  pub slept : (s : H.State) (n : ℕ) → H.now s + n ≤ H.now (H.sleep s n)
  pub queried : (s : H.State) (sql : Text) → H.now s ≤ H.now (H.query_opt s sql).0
  pub answered : (s : H.State) (sql : Text) → (found : Bool) × ((H.query_opt s sql).1 ≡ inr found)

abbrev pub opposite : Ended → Ended
opposite returned = panicked
opposite panicked = returned

module _ (H : Host) (steady : Steady H) (sql : Text) (start timeout : ℕ) where
  -- How both loops end, with this fuel.
  abbrev Ends : ℕ → H.State → Type 0
  Ends fuel s =
      (s' : H.State) × (e : Ended) × (wait_loop H sql start timeout fuel s ≡ some (s', e))
      × (not_loop H sql start timeout fuel s ≡ some (s', opposite e))

  -- A round in time.
  round-Ends :
      (fuel : ℕ) (s : H.State)
      → ltb timeout (H.now s - start) ≡ false
      → Ends fuel (H.sleep (H.query_opt s sql).0 500)
      → (found : Bool) × ((H.query_opt s sql).1 ≡ inr found)
      → Ends (suc fuel) s
  unfolding wait_loop not_loop
  round-Ends fuel s early more (true, reply) =
      ((H.query_opt s sql).0, returned, ground (arith, early, reply), ground (arith, early, reply))
  round-Ends fuel s early (s', e, waits, not_there) (false, reply) =
      (s', e, ground (arith, early, reply, waits), ground (arith, early, reply, not_there))

  loops-Ends :
      (fuel : ℕ) (s : H.State)
      → start ≤ H.now s
      → start + timeout < H.now s + fuel * 500
      → Ends (suc fuel) s
  unfolding wait_loop not_loop
  loops-Ends zero s h enough = (s, panicked, ground (arith, enough, h), ground (arith, enough, h))
  loops-Ends (suc fuel) s h enough = elim (Bool-cases (ltb timeout (H.now s - start))) [
    | inl late ↦ (s, panicked, ground (arith, late), ground (arith, late))
    | inr early ↦
        let later = H.sleep (H.query_opt s sql).0 500 in
        let passed : H.now s + 500 ≤ H.now later =
          omega (arith, steady.queried s sql, steady.slept (H.query_opt s sql).0 500) in
        round-Ends (suc fuel) s early
          (loops-Ends fuel later (omega (arith, h, passed)) (omega (arith, enough, passed)))
          (steady.answered s sql)
  ]

-- With time that goes on and queries that are answered, both waits of the tests come to an end within
-- a number of rounds that the timeout gives, in the same state, and exactly one of them panics: what
-- `wait_for_sink_row` waits for is what `not_sink_row` rules out.
pub not_sink_row-wait_for_sink_row :
    (H : Host) (fuel : ℕ) (s : H.State) (table where_clause : Text) (timeout : ℕ)
    → Steady H
    → timeout < fuel * 500
    → (s' : H.State) × (e : Ended) × (wait_for_sink_row H (suc fuel) s table where_clause timeout
        ≡ some (s', e))
      × (not_sink_row H (suc fuel) s table where_clause timeout ≡ some (s', opposite e))
unfolding wait_for_sink_row not_sink_row
not_sink_row-wait_for_sink_row H fuel s table where_clause timeout steady enough =
    loops-Ends H steady (row_query table where_clause) (H.now s) timeout fuel s (omega arith)
      (omega (arith, enough))
