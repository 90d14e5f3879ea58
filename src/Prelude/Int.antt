-- ===== src/Prelude/Int.antt =====
-- i64 values that may be negative: `negsuc n` is -(n + 1).
use Prim.Native.Nat.{ℕ, suc, ◌-◌}
use Prim.Native.String.{String}
use mathlib.Core.List.{[], ◌∷◌}
use dbos_transact_rs.Prelude.Tests.{leb, if◌then◌else◌}
use dbos_transact_rs.Prelude.Format.{format, decimal}

pub data ℤ : Type 0 where
  pos : ℕ → ℤ
  negsuc : ℕ → ℤ

-- a - b, as an integer.
abbrev pub sub_ℕ : ℕ → ℕ → ℤ
sub_ℕ a b = if leb b a then pos (a - b) else negsuc (b - a - 1)

pub show : ℤ → String
show (pos n) = decimal n
show (negsuc n) = format ("-" ∷ decimal (suc n) ∷ [])
