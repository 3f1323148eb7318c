-- ===== src/Scheduler/Mailbox/Tests.antt =====
-- `Mailbox` run on small inputs.
use dtact.Base.{◌≡◌, refl, none, some, err}
use dtact.Scheduler.Mailbox.{Mailbox, new, push, pop, single}

two_in : Mailbox
unfolding push new
two_in = (push (push new (single 5)).0 (single 6)).0

pop_in_order : ((pop two_in).1 ≡ some (single 5)) × ((pop (pop two_in).0).1 ≡ some (single 6))
unfolding two_in push pop new
pop_in_order = (refl, refl)

-- The place behind the last one is the first: a mailbox whose head is there has no room.
push_full : (push (record new { tail = 65535 }) (single 5)).1 ≡ err (single 5)
unfolding push new
push_full = refl

pop_empty : (pop new).1 ≡ none
unfolding pop new
pop_empty = refl
