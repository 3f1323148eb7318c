-- ===== src/Base/Results.antt =====
-- What a fallible hand-over returns, and how many guards an attempt gives.
use Prim.Native.Nat.{ℕ}
use mathlib.Core.Option.{Option, none, some}

-- `Result<(), T>`: a value that is refused is given back.
pub data PushResult {ℓ} (A : Type ℓ) : Type ℓ where
  ok : PushResult A
  err : A → PushResult A

-- A guard or a permit that was granted, or none.
abbrev pub granted : Option (Unit {0}) → ℕ
granted none = 0
granted (some x) = 1
