-- ===== src/Sync/Broadcast/Tests.antt =====
-- The broadcast channel run on small inputs.
use dtact.Base.{ℕ, ◌≡◌, refl, arith, some, [], ◌∷◌}
use dtact.Sync.Broadcast.{Shared, lagged, channel, send, try_recv_one}
use dtact.Sync.Broadcast.Lag.{Holds, channel-Holds, send-Holds, try_recv_one-lagged}

-- A channel of capacity two after one, two, three sends.
abbrev sent_one : Shared ℕ
sent_one = (send 10 (channel 2)).0

abbrev sent_two : Shared ℕ
sent_two = (send 11 sent_one).0

abbrev sent_three : Shared ℕ
sent_three = (send 12 sent_two).0

sent_one-Holds : Holds sent_one (10 ∷ [])
unfolding channel send
sent_one-Holds = (send-Holds (channel 2) [] 10 (channel-Holds 2) (omega arith) refl).1

sent_two-Holds : Holds sent_two (10 ∷ 11 ∷ [])
unfolding channel send
sent_two-Holds = (send-Holds sent_one (10 ∷ []) 11 sent_one-Holds (omega arith) refl).1

sent_three-Holds : Holds sent_three (10 ∷ 11 ∷ 12 ∷ [])
unfolding channel send
sent_three-Holds = (send-Holds sent_two (10 ∷ 11 ∷ []) 12 sent_two-Holds (omega arith) refl).1

try_recv_one-lagged_example :
    try_recv_one sent_three ≡ (record sent_three { cursor = 2 }, some (lagged 2))
unfolding channel send
try_recv_one-lagged_example =
    try_recv_one-lagged sent_three (10 ∷ 11 ∷ 12 ∷ []) 2 sent_three-Holds (omega arith)
      (omega arith) (omega arith) refl
