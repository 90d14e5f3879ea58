-- ===== src/Runtime/Session.antt =====
-- runtime/context.rs: the state of a running workflow, beside the database and the outside world
-- on which step bodies act.
use dbos_transact_rs.Prelude.{ℕ, suc, String, Option, List}
use dbos_transact_rs.Exec.{ok, Exec}
use dbos_transact_rs.Db.Tables.{Db}

pub record AuthIdentity : Type 0 where
  pub user : Option String
  pub role : Option String
  pub roles : List String

-- `next_step` is the counter `step_id` plus one: the code starts at -1 and counts up first.
pub record WorkflowState : Type 0 where
  pub workflow_id : String
  pub next_step : ℕ
  pub auth : AuthIdentity

unfoldable pub new : String → AuthIdentity → WorkflowState
new workflow_id auth = record { workflow_id = workflow_id; next_step = 0; auth = auth }

pub record Session (W : Type 0) : Type 0 where
  pub state : WorkflowState
  pub db : Db
  pub world : W

module _ {W : Type 0} where
  abbrev pub with_next : ℕ → Session W → Session W
  with_next n s = record s { state = record (s.state) { next_step = n } }

  -- fetch_add(1) + 1
  unfoldable pub next_step_id : Exec (Session W) ℕ
  next_step_id s = (ok s.state.next_step, with_next (suc s.state.next_step) s)

module _ {W A : Type 0} where
  -- A statement of the database layer.
  abbrev pub on_db : Exec Db A → Exec (Session W) A
  on_db m s = let (r, db') = m s.db in (r, record s { db = db' })

  -- A body that acts on the world only.
  abbrev pub on_world : Exec W A → Exec (Session W) A
  on_world m s = let (r, w') = m s.world in (r, record s { world = w' })
