-- ===== src/Sync/OnceCell/Tests.antt =====
-- `OnceCell` run on small inputs.
use dtact.Base.{ℕ}
use dtact.Sync.OnceCell.{OnceCell, new, claim, write, finish}
use dtact.Sync.OnceCell.Once.{Reached, created, claimed, wrote, finished, Says, Reached-Says}

-- A caller claims the cell, writes 5 and publishes it.
abbrev published : OnceCell ℕ
published = finish (write 5 (claim new).0)

published-Reached : Reached 0 0 published
unfolding claim write new
published-Reached =
    finished 0 0 (write 5 (claim new).0) (wrote 0 0 (claim new).0 5 (claimed 0 0 new created))

Reached-Says_example : Says published.state 0 0 published.contents
Reached-Says_example = Reached-Says 0 0 published published-Reached
