-- ===== src/Runtime/Program/Recovery.antt =====
-- Recovery is exact: a crash between two steps changes nothing of what the workflow does.
use dbos_transact_rs.Prelude.{
  ℕ, zero, suc, ◌≤◌, String, ◌≡◌, refl, sym, ◌∙◌, ap, false, none, some, arith, find, find-insert,
  eqb, eq_refl, subst, or_else, if◌then◌else◌,
}
use dbos_transact_rs.Error.DbosError.{display, other, new}
use dbos_transact_rs.Error.Code.{same_code}
use dbos_transact_rs.Exec.{Result, ok, err}
use dbos_transact_rs.Db.Row.{has_id}
use dbos_transact_rs.Db.Tables.{OperationRow}
use dbos_transact_rs.Db.Steps.{operation_of, is_operation}
use dbos_transact_rs.Db.Steps.Laws.{IsLive}
use dbos_transact_rs.Serialize.Codec.{Codec}
use dbos_transact_rs.Runtime.Session.{Session, with_next}
use dbos_transact_rs.Runtime.Context.{run_step}
use dbos_transact_rs.Runtime.Context.Replay.{
  Encodes, result_row, replay_of, after_run, run_step-fresh, run_step-replays,
}
use dbos_transact_rs.Runtime.Program.{Outcome, Program, return, step, observe, run, crash_after}

-- A replayed result looks as the result did.
pub observe-replay_of : {V : Type 0} (r : Result V) → observe (replay_of r) ≡ observe r
unfolding display other new same_code
observe-replay_of (ok v) = refl
observe-replay_of (err e) = refl

-- The workflow is alive, and has recorded nothing from its next step on.
pub record Ready {W : Type 0} (s : Session W) : Type 0 where
  pub live : IsLive s.state.workflow_id s.db
  pub unrecorded : (m : ℕ) → s.state.next_step ≤ m → operation_of s.state.workflow_id m s.db ≡ none

-- The same workflow, with the same rows in `workflow_status`, and with all that was recorded.
record Extends {W : Type 0} (s t : Session W) : Type 0 where
  workflow : t.state.workflow_id ≡ s.state.workflow_id
  rows : t.db.workflow_status ≡ s.db.workflow_status
  keeps :
      (m : ℕ) (r : OperationRow)
      → operation_of s.state.workflow_id m s.db ≡ some r
      → operation_of s.state.workflow_id m t.db ≡ some r

module _ {V : Type 0} (codec : Codec V) (total : Encodes codec) where
  key-result_row :
      (t : ℕ) (id : String) (n : ℕ) (name : String) (r : Result V) (k : ℕ)
      → is_operation id k (result_row codec total t id n name r) ≡ eqb n k
  unfolding result_row
  key-result_row t id n name (ok v) k = rw eq_refl
  key-result_row t id n name (err e) k = rw eq_refl

module _ {W V : Type 0} (codec : Codec V) (total : Encodes codec) (t : ℕ) (name : String)
    (s : Session W) (r : Result V × W) where
  abbrev next_session : Session W
  next_session = after_run codec total t name s r

  abbrev new_row : OperationRow
  new_row = result_row codec total t s.state.workflow_id s.state.next_step name r.0

  operation-next :
      (m : ℕ)
      → operation_of s.state.workflow_id m next_session.db
        ≡ or_else
            (operation_of s.state.workflow_id m s.db)
            (if eqb s.state.next_step m then some new_row else none)
  operation-next m =
      find-insert (is_operation s.state.workflow_id m) new_row s.db.operation_outputs
      ∙ rw (key-result_row codec total t s.state.workflow_id s.state.next_step name r.0 m)

  next-Ready : Ready s → Ready next_session
  next-Ready h = record {
    live = record {
      row = h.live.row;
      present = h.live.present;
      not_cancelled = h.live.not_cancelled;
    };
    unrecorded = λ m le. operation-next m ∙ rw (h.unrecorded m (omega arith)) (ground arith);
  }

  next-Extends : Extends s next_session
  next-Extends = record { workflow = refl; rows = refl; keeps = λ m x e. operation-next m ∙ rw e }

  -- The step itself is recorded.
  next-recorded :
      Ready s → operation_of s.state.workflow_id s.state.next_step next_session.db ≡ some new_row
  next-recorded h =
      operation-next s.state.next_step
      ∙ rw (h.unrecorded s.state.next_step (omega arith)) (ground arith)

Extends-trans : {W : Type 0} {s t u : Session W} → Extends s t → Extends t u → Extends s u
Extends-trans {u = u} h k = record {
  workflow = k.workflow ∙ h.workflow;
  rows = k.rows ∙ h.rows;
  keeps = λ m r e. rw (← h.workflow) (k.keeps m r (rw h.workflow (h.keeps m r e)));
}

Extends-IsLive :
    {W : Type 0} {s t : Session W}
    → Extends s t
    → IsLive s.state.workflow_id s.db
    → IsLive t.state.workflow_id t.db
Extends-IsLive {s} {t} e live = record {
  row = live.row;
  present = cc (
    live.present,
    ap (λ rows. find (has_id t.state.workflow_id) rows) e.rows,
    ap (λ id. find (has_id id) s.db.workflow_status) e.workflow,
  );
  not_cancelled = live.not_cancelled;
}

-- A later session still has the row of the step.
recorded_after :
    {W V : Type 0} (codec : Codec V) (total : Encodes codec) (t : ℕ) (name : String) (s : Session W)
    (r : Result V × W)
    → Ready s
    → {u : Session W} → Extends (after_run codec total t name s r) u
    → operation_of u.state.workflow_id s.state.next_step u.db
      ≡ some (result_row codec total t u.state.workflow_id s.state.next_step name r.0)
recorded_after codec total t name s r h {u} e =
    subst
      (λ id.
        operation_of id s.state.next_step u.db
        ≡ some (result_row codec total t id s.state.next_step name r.0))
      (sym e.workflow) (e.keeps s.state.next_step _ (next-recorded codec total t name s r h))

module _ {W V : Type 0} (codec : Codec V) (total : Encodes codec) (clock : ℕ → ℕ) where
  crash_after-Extends :
      (n : ℕ) (p : Program W V) (s : Session W)
      → Ready s
      → Extends s (crash_after codec clock n p s)
  unfolding crash_after
  crash_after-Extends zero p s h = record { workflow = refl; rows = refl; keeps = λ m r e. e }
  crash_after-Extends (suc n) (return r) s h = record {
    workflow = refl;
    rows = refl;
    keeps = λ m r e. e;
  }
  crash_after-Extends (suc n) (step name body next) s h =
      rw
        (run_step-fresh codec total (clock s.state.next_step) name body s h.live
          (h.unrecorded s.state.next_step (omega arith)))
        (Extends-trans (next-Extends codec total (clock s.state.next_step) name s (body s.world)) (
          crash_after-Extends n (next (observe (body s.world).0))
            (after_run codec total (clock s.state.next_step) name s (body s.world))
            (next-Ready codec total (clock s.state.next_step) name s (body s.world) h)))

  -- A step that is recorded is passed over: the program goes on with what the step's result shows.
  run-recorded :
      (name : String) (body : W → Result V × W) (next : Outcome V → Program W V) (t : ℕ)
      (s : Session W) (r : Result V)
      → IsLive s.state.workflow_id s.db
      → operation_of s.state.workflow_id s.state.next_step s.db
        ≡ some (result_row codec total t s.state.workflow_id s.state.next_step name r)
      → run codec clock (step name body next) s
        ≡ run codec clock (next (observe r)) (with_next (suc s.state.next_step) s)
  unfolding run
  run-recorded name body next t s r live e =
      rw (run_step-replays codec total (clock s.state.next_step) t name body s r live e)
        (rw (observe-replay_of r))

  module _ (name : String) (body : W → Result V × W) (next : Outcome V → Program W V)
      (s : Session W) (h : Ready s) where
    abbrev next_of : Session W
    next_of = after_run codec total (clock s.state.next_step) name s (body s.world)

    fresh : run_step codec (clock s.state.next_step) false name body s ≡ ((body s.world).0, next_of)
    fresh =
        run_step-fresh codec total (clock s.state.next_step) name body s h.live
          (h.unrecorded s.state.next_step (omega arith))

    run-fresh :
        run codec clock (step name body next) s
        ≡ run codec clock (next (observe (body s.world).0)) next_of
    unfolding run
    run-fresh = rw fresh

    crash_after-fresh :
        (n : ℕ)
        → crash_after codec clock (suc n) (step name body next) s
          ≡ crash_after codec clock n (next (observe (body s.world).0)) next_of
    unfolding crash_after
    crash_after-fresh n = rw fresh

  -- Take a live workflow that has recorded nothing from its next step on, and a coder that encodes
  -- every value. Run, crash after any number of steps, and run again from the first step over what is
  -- recorded: the result, the database and the world are those of the run without a crash. So each
  -- step's body acts on the world once.
  pub recovery_exact :
      (n : ℕ) (p : Program W V) (s : Session W)
      → Ready s
      → run codec clock p (with_next s.state.next_step (crash_after codec clock n p s))
        ≡ run codec clock p s
  unfolding crash_after
  recovery_exact zero p s h = refl
  recovery_exact (suc n) (return r) s h = unfold run in refl
  recovery_exact (suc n) (step name body next) s h =
      let t : ℕ = clock s.state.next_step in
      let r : Result V × W = body s.world in
      let s' : Session W = next_of name body next s h in
      let u : Session W = crash_after codec clock n (next (observe r.0)) s' in
      let ext : Extends s' u =
        crash_after-Extends n (next (observe r.0)) s' (next-Ready codec total t name s r h) in
      ap (λ x. run codec clock (step name body next) (with_next s.state.next_step x))
        (crash_after-fresh name body next s h n)
      ∙ run-recorded name body next t (with_next s.state.next_step u) r.0
          (Extends-IsLive ext (next-Ready codec total t name s r h).live)
          (recorded_after codec total t name s r h ext)
      ∙ recovery_exact n (next (observe r.0)) s' (next-Ready codec total t name s r h)
      ∙ sym (run-fresh name body next s h)
