-- ===== src/Runtime/Program.antt =====
-- A workflow body as a program over `run_step` of runtime/context.rs: the code between two steps
-- sees the values of the steps before, and of an error its text. A crash stops it between two steps;
-- a recovery runs it again from its first step, over what is recorded.
pub mod Recovery
use dbos_transact_rs.Prelude.{ℕ, zero, suc, String, Bool, false}
use dbos_transact_rs.Error.DbosError.{display}
use dbos_transact_rs.Exec.{Result, ok, err, Exec}
use dbos_transact_rs.Serialize.Codec.{Codec}
use dbos_transact_rs.Runtime.Session.{Session, with_next}
use dbos_transact_rs.Runtime.Context.{run_step}

pub data Outcome (V : Type 0) : Type 0 where
  value : V → Outcome V
  failed : String → Outcome V

pub data Program (W V : Type 0) : Type 0 where
  return : Result V → Program W V
  step : String → (W → Result V × W) → (Outcome V → Program W V) → Program W V

abbrev pub observe : {V : Type 0} → Result V → Outcome V
observe (ok v) = value v
observe (err e) = failed (display e)

-- `clock` gives the time at which each step id is recorded.
module _ {W V : Type 0} (codec : Codec V) (clock : ℕ → ℕ) where
  unfoldable pub run : Program W V → Exec (Session W) V
  run (return r) s = (r, s)
  run (step name body next) s =
      let (r, s') = run_step codec (clock s.state.next_step) false name body s in
      run (next (observe r)) s'

  -- The session of a run that crashes after at most `n` steps.
  unfoldable pub crash_after : ℕ → Program W V → Session W → Session W
  crash_after zero p s = s
  crash_after (suc n) (return r) s = s
  crash_after (suc n) (step name body next) s =
      let (r, s') = run_step codec (clock s.state.next_step) false name body s in
      crash_after n (next (observe r)) s'
