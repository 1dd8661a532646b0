-- ===== src/Examples/SqlWitnesses.antt =====
-- The theorems on the SQL store, on a server with concrete columns.
use payment_ledger_platform.Base.{
  Memᴰ, arith, ◌≡◌, ◌≢◌, refl, [], ◌∷◌, some, false, All, arith, eq_iff,
}
use payment_ledger_platform.Base.Dict.{lookup, insert}
use payment_ledger_platform.Base.Int.{pos, ◌+ℤ◌}
use payment_ledger_platform.Error.{external, ok}
use payment_ledger_platform.Domain.Payment.{captured, validate_capture, can_transition}
use payment_ledger_platform.Domain.Ledger.{validate_balanced, is_malformed}
use payment_ledger_platform.Store.Memory.Payments.{next_payment, charge}
use payment_ledger_platform.Store.Sql.Accepts.Commands.{commit-accepts}
use payment_ledger_platform.Store.Steps.{applies_amount, run}
use payment_ledger_platform.Store.WellFormed.{IsWellFormed}
use payment_ledger_platform.Store.Answers.{ask, ask_all}
use payment_ledger_platform.Store.Sql.Tables.{new_tables, statement, transaction, alone}
use payment_ledger_platform.Store.Sql.Payments.{
  create_payment, get_payment, apply_amount, commit_payment_command,
}
use payment_ledger_platform.Store.Sql.Outbox.{claim_outbox, candidates}
use payment_ledger_platform.Store.Sql.Instance.{postgres}
use payment_ledger_platform.Store.Sql.Abstract.{in_memory}
use payment_ledger_platform.Store.Sql.Atomic.{ask_atomic}
use payment_ledger_platform.Store.Sql.Complete.{claim_outbox-again}
use payment_ledger_platform.Store.Sql.Claims.{claim_outbox-in_memory, claim_outbox-disjoint}
use payment_ledger_platform.Store.Sql.Replay.{replayed, create_payment-replay}
use payment_ledger_platform.Store.Sql.Refines.Reads.{create_payment-get_payment}
use payment_ledger_platform.Store.Sql.Refines.ReadBack.{applies, change-get_payment}
use payment_ledger_platform.Store.Sql.Refines.History.{accepted, ask_all-run, ask_all-IsWellFormed}
use payment_ledger_platform.Examples.Cents.{cents, meaning}
use payment_ledger_platform.Examples.Data.{new_order, new_order-IsSound, calls}
use payment_ledger_platform.Examples.SqlData.{
  first_rows, server, server_failing_at, failing-Columns, db_with, order_row, with_order,
  with_events, event_named, server-Orders, captured_payment, capture_command, order_row-IsSound,
  entries_fit, slow_server, slow_server-Orders, slow_server-Complete, server-Columns,
}

-- The update of a capture does not reach the server.
ask_atomic_example :
    (ask
      (postgres (server_failing_at 2))
      (applies_amount "p1" captured (pos 60))
      (db_with with_order)).1.tables
    ≡ with_order
unfolding ask apply_amount transaction statement lookup validate_capture ◌+ℤ◌ can_transition
ask_atomic_example =
    ask_atomic (server_failing_at 2) (applies_amount "p1" captured (pos 60)) (db_with with_order)
      (external "connection reset") refl

ask_all-run_example :
    in_memory (ask_all (postgres (server_failing_at 9)) calls (db_with new_tables)).1.tables
    ≡ run (accepted (server_failing_at 9) calls (db_with new_tables)) (in_memory new_tables)
ask_all-run_example =
    ask_all-run meaning (server_failing_at 9) (failing-Columns 9) calls (db_with new_tables)
      ((refl, refl, refl), (tt, (tt, (tt, (tt, tt)))))

ask_all-IsWellFormed_example :
    IsWellFormed meaning
      (in_memory (ask_all (postgres (server_failing_at 9)) calls (db_with new_tables)).1.tables)
ask_all-IsWellFormed_example =
    ask_all-IsWellFormed meaning (server_failing_at 9) (failing-Columns 9) calls 0
      ((refl, refl, refl), (tt, (tt, (tt, (tt, tt)))))
      (new_order-IsSound, (tt, (tt, (tt, (tt, tt)))))

create_payment-get_payment_example :
    let (r, db') = create_payment server new_order "order-1" (db_with new_tables) in
    (r ≡ ok (new_order, false)) × ((get_payment server "p1" db').0 ≡ ok new_order)
unfolding lookup
create_payment-get_payment_example =
    create_payment-get_payment server new_order "order-1" (db_with new_tables) (λ k. refl) refl refl
      refl refl refl refl refl refl refl refl

create_payment-replay_example :
    let (r, db') = create_payment server new_order "order-1" (db_with with_order) in
    (r ≡ replayed server "p1" order_row) × (db'.tables ≡ with_order)
unfolding lookup
create_payment-replay_example =
    create_payment-replay server new_order "order-1" "p1" order_row (db_with with_order) refl refl
      refl refl

claim_outbox-in_memory_example :
    (in_memory (claim_outbox server 1 (db_with with_events)).1.tables ≡ in_memory with_events)
    × All
        (λ e. (e.published ≡ false) × (lookup e.id (in_memory with_events).outbox ≡ some e))
        (event_named "e1" ∷ [])
unfolding claim_outbox alone statement candidates first_rows
claim_outbox-in_memory_example =
    claim_outbox-in_memory server 1 (db_with with_events) (event_named "e1" ∷ []) server-Orders refl

claim_outbox-disjoint_example :
    All (λ e. All (λ f. e.id ≢ f.id) (event_named "e2" ∷ [])) (event_named "e1" ∷ [])
unfolding claim_outbox alone statement candidates insert first_rows
claim_outbox-disjoint_example =
    claim_outbox-disjoint server 1 5 (db_with with_events) (event_named "e1" ∷ [])
      (event_named "e2" ∷ []) server-Orders refl refl (omega arith)

commit-accepts_example :
    (commit_payment_command server capture_command (db_with with_order)).0 ≡ ok captured_payment
unfolding lookup next_payment charge validate_capture can_transition validate_balanced is_malformed
    ◌+ℤ◌
commit-accepts_example =
    commit-accepts meaning server capture_command captured_payment order_row (db_with with_order)
      (λ k. refl) refl refl order_row-IsSound refl refl refl entries_fit
      (refl, ((λ same. ground (arith, (eq_iff "d1" "c1").1 same)), tt), (refl, tt, tt))
      (refl, ("{}", refl), refl)

claim_outbox-again_example :
    All (λ e. Memᴰ e (event_named "e1" ∷ event_named "e2" ∷ [])) (event_named "e1" ∷ [])
unfolding claim_outbox alone statement candidates insert first_rows
claim_outbox-again_example =
    claim_outbox-again slow_server slow_server-Complete 1 5 (db_with with_events)
      (event_named "e1" ∷ []) (event_named "e1" ∷ event_named "e2" ∷ []) slow_server-Orders refl
      refl (omega arith) (omega arith)

change-get_payment_example :
    let db' = (apply_amount server "p1" captured (pos 60) (db_with with_order)).1 in
    (get_payment server "p1" db').0 ≡ ok captured_payment
unfolding apply_amount transaction statement lookup validate_capture ◌+ℤ◌ can_transition
change-get_payment_example =
    change-get_payment server server-Columns "p1" (applies captured (pos 60)) (db_with with_order)
      captured_payment tt refl refl
