-- ===== src/Sync/Watch/Tests.antt =====
-- The latest-value channel run on small inputs.
use dtact.Base.{ℕ, ◌≡◌, some, [], ◌∷◌, arith}
use dtact.Sync.WaitQueue.Parked.{lone}
use dtact.Sync.Watch.{Shared, changed, borrow_and_update, attempt_change, send_all}
use dtact.Sync.Watch.Changes.{attempt_change-send_all}

-- The receiver, task 7, waits for a change.
abbrev waited : Shared ℕ
waited = record {
  value = 5;
  version = 2;
  sender_count = 1;
  receiver_count = 1;
  wait = lone 7;
  seen_version = 2;
}

attempt_change-send_all_example :
    let c' = send_all (6 ∷ 8 ∷ []) (borrow_and_update waited).0 in
    attempt_change c' ≡ (record c' { seen_version = c'.version }, some changed)
attempt_change-send_all_example =
    attempt_change-send_all (6 ∷ 8 ∷ []) waited (omega arith) (omega arith) (omega arith)
