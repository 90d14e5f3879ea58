-- ===== src/Runtime/Admin/Wire.antt =====
-- runtime/admin.rs: the JSON objects that the admin server sends. `insert` is that of a map; the
-- seconds of a period are a float, whose text is a parameter.
use dbos_transact_rs.Prelude.{
  ℕ, String, Bool, true, false, Option, none, some, List, [], ◌∷◌, decimal,
}
use dbos_transact_rs.Prelude.Int.{pos}
use dbos_transact_rs.Db.WorkflowStatusType.{WorkflowStatusType, as_str, pending}
use dbos_transact_rs.Db.Management.List.{WorkflowStatus, StepInfo}
use dbos_transact_rs.Serialize.Value.{
  Value, boolean, number, integer, float, string, object, Entries, empty_map, Elements, no_elements,
  element, insert,
}
use dbos_transact_rs.Serialize.Serde.{Serde, right_or}
use dbos_transact_rs.Runtime.Queue.Options.{WorkflowQueue, RateLimiter}

abbrev natural : ℕ → Value
natural n = number (integer (pos n))

-- `if let Some(v) = … { o.insert(key, json!(v)) }`
unfoldable pub put : {A : Type 0} → (A → Value) → String → Option A → Entries → Entries
put json key none o = o
put json key (some v) o = insert key (json v) o

unfoldable pub flag : String → Bool → Entries → Entries
flag key false o = o
flag key true o = insert key (boolean true) o

unfoldable pub values : {A : Type 0} → (A → Value) → List A → Elements
values json [] = no_elements
values json (x ∷ xs) = element (json x) (values json xs)

module _ (secs_text : ℕ → String) where
  unfoldable pub rate_limit_to_wire : RateLimiter → Value
  rate_limit_to_wire r = object (
      insert "Period" (number (float (secs_text r.period)))
        (insert "Limit" (natural r.limit) empty_map))

  unfoldable pub queue_to_wire : WorkflowQueue → Value
  queue_to_wire q =
      let o = insert "name" (string q.name) empty_map in
      let o = put natural "concurrency" q.global_concurrency o in
      let o = put natural "workerConcurrency" q.worker_concurrency o in
      let o = flag "priorityEnabled" q.priority_enabled o in
      let o = put rate_limit_to_wire "rateLimit" q.rate_limit o in
      let o = insert "maxTasksPerIteration" (natural q.max_tasks_per_iteration) o in
      object (flag "partitionQueue" q.partition_queue o)

module _ (J : Serde) where
  -- A value as its text, and nothing as the empty text.
  unfoldable pub value_text : Option Value → String
  value_text none = ""
  value_text (some v) = J.display_value v

  unfoldable pub error_text : String → String
  error_text e = right_or (J.to_string (string e)) ""

  unfoldable pub error_text_opt : Option String → String
  error_text_opt none = ""
  error_text_opt (some e) = error_text e

  -- The start is shown while the workflow runs.
  unfoldable pub started_if_pending : WorkflowStatusType → Option ℕ → Entries → Entries
  started_if_pending pending t o = put (λ n. string (decimal n)) "StartedAt" t o
  started_if_pending _ t o = o

  unfoldable pub workflow_to_wire : WorkflowStatus Value → Value
  workflow_to_wire w =
      let o = insert "WorkflowUUID" (string w.id) empty_map in
      let o = insert "Status" (string (as_str w.status)) o in
      let o = insert "WorkflowName" (string w.name) o in
      let o = insert "Attempts" (natural w.recovery_attempts) o in
      let o = insert "Priority" (natural w.priority) o in
      let o = insert "CreatedAt" (string (decimal w.created_at)) o in
      let o = insert "UpdatedAt" (string (decimal w.updated_at)) o in
      let o = put string "QueueName" w.queue_name o in
      let o = put string "ExecutorID" w.executor_id o in
      let o = put string "ApplicationVersion" w.application_version o in
      let o = put string "DeduplicationID" w.deduplication_id o in
      let o = put string "ParentWorkflowID" w.parent_workflow_id o in
      let o = insert "Input" (string (value_text w.input)) o in
      let o = insert "Output" (string (value_text w.output)) o in
      let o = insert "Error" (string (error_text_opt w.error)) o in
      let o = put (λ n. string (decimal n)) "CompletedAt" w.completed_at o in
      object (started_if_pending w.status w.started_at o)

  unfoldable pub step_to_wire : StepInfo Value → Value
  step_to_wire s =
      let o = insert "function_id" (natural s.step_id) empty_map in
      let o = insert "function_name" (string s.step_name) o in
      let o = insert "output" (string (value_text s.output)) o in
      let o = put string "child_workflow_id" s.child_workflow_id o in
      let o = put natural "started_at_epoch_ms" s.started_at o in
      let o = put natural "completed_at_epoch_ms" s.completed_at o in
      object (put (λ e. string (error_text e)) "error" s.error o)
