-- ===== src/Db/WorkflowStatusType.antt =====
-- db/status.rs: the states of a workflow and the texts that stand for them in `status`.
use dbos_transact_rs.Prelude.{
  ℕ, String, ◌≡◌, refl, ◌↔◌, Bool, true, false, Option, none, some, arith, ◌==◌, eq_iff,
  if◌then◌else◌, eqb,
}

pub data WorkflowStatusType : Type 0 where
  pending enqueued delayed success error cancelled : WorkflowStatusType
  max_recovery_attempts_exceeded : WorkflowStatusType

unfoldable pub as_str : WorkflowStatusType → String
as_str pending = "PENDING"
as_str enqueued = "ENQUEUED"
as_str delayed = "DELAYED"
as_str success = "SUCCESS"
as_str error = "ERROR"
as_str cancelled = "CANCELLED"
as_str max_recovery_attempts_exceeded = "MAX_RECOVERY_ATTEMPTS_EXCEEDED"

unfoldable pub from_str : String → Option WorkflowStatusType
from_str s =
    if s == "PENDING"
    then some pending
    else if s == "ENQUEUED"
    then some enqueued
    else if s == "DELAYED"
    then some delayed
    else if s == "SUCCESS"
    then some success
    else if s == "ERROR"
    then some error
    else if s == "CANCELLED"
    then some cancelled
    else if s == "MAX_RECOVERY_ATTEMPTS_EXCEEDED"
    then some max_recovery_attempts_exceeded
    else none

unfoldable pub is_terminal : WorkflowStatusType → Bool
is_terminal success = true
is_terminal error = true
is_terminal cancelled = true
is_terminal max_recovery_attempts_exceeded = true
is_terminal _ = false

-- The comparison of two `status` columns, in SQL and in Rust, is that of their texts; the texts
-- are distinct, so it is that of the states.
abbrev rank : WorkflowStatusType → ℕ
rank pending = 0
rank enqueued = 1
rank delayed = 2
rank success = 3
rank error = 4
rank cancelled = 5
rank max_recovery_attempts_exceeded = 6

abbrev pub same_status : WorkflowStatusType → WorkflowStatusType → Bool
same_status a b = eqb (rank a) (rank b)

-- The comparison of states is the comparison of the texts that the code makes.
pub same_status-as_str : (a b : WorkflowStatusType) → same_status a b ≡ (as_str a == as_str b)
unfolding as_str
same_status-as_str pending pending = refl
same_status-as_str pending _ = refl
same_status-as_str enqueued pending = refl
same_status-as_str enqueued _ = refl
same_status-as_str delayed pending = refl
same_status-as_str delayed _ = refl
same_status-as_str success pending = refl
same_status-as_str success _ = refl
same_status-as_str error pending = refl
same_status-as_str error _ = refl
same_status-as_str cancelled pending = refl
same_status-as_str cancelled _ = refl
same_status-as_str max_recovery_attempts_exceeded pending = refl
same_status-as_str max_recovery_attempts_exceeded _ = refl

from_str-as_str_text : (t : WorkflowStatusType) → from_str (as_str t) ≡ some t
unfolding from_str as_str
from_str-as_str_text pending = refl
from_str-as_str_text _ = refl

-- Every state is read back from its text, and no other text is read as a state.
pub from_str_iff : (s : String) (t : WorkflowStatusType) → (from_str s ≡ some t) ↔ (s ≡ as_str t)
from_str_iff s t = (read, λ e. rw e (from_str-as_str_text t))
  where
    read : from_str s ≡ some t → s ≡ as_str t
    read h =
        unfold from_str as_str in
        ground (
          arith,
          eq_iff s "PENDING",
          eq_iff s "ENQUEUED",
          eq_iff s "DELAYED",
          eq_iff s "SUCCESS",
          eq_iff s "ERROR",
          eq_iff s "CANCELLED",
          eq_iff s "MAX_RECOVERY_ATTEMPTS_EXCEEDED",
        )
