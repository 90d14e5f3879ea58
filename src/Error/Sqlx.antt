-- ===== src/Error/Sqlx.antt =====
-- error.rs: the errors of the libraries below, and what the database layer reads off an SQLSTATE.
use dbos_transact_rs.Prelude.{String, Bool, ◌||◌, Option, none, some, column_eq}

-- `sqlx::Error`: an error of the server, with its SQLSTATE, or any other.
pub data SqlxError : Type 0 where
  database : Option String → String → SqlxError
  other : String → SqlxError

unfoldable pub sqlstate : SqlxError → Option String
sqlstate (database code text) = code
sqlstate (other text) = none

-- `{e}`
unfoldable pub message : SqlxError → String
message (database code text) = text
message (other text) = text

unfoldable pub is_unique_violation : SqlxError → Bool
unfolding sqlstate
is_unique_violation e = column_eq (sqlstate e) "23505"

unfoldable pub is_foreign_key_violation : SqlxError → Bool
unfolding sqlstate
is_foreign_key_violation e = column_eq (sqlstate e) "23503"

unfoldable pub is_contention : SqlxError → Bool
unfolding sqlstate
is_contention e = column_eq (sqlstate e) "40001" || column_eq (sqlstate e) "40P01"

unfoldable pub is_lock_not_available : SqlxError → Bool
unfolding sqlstate
is_lock_not_available e = column_eq (sqlstate e) "55P03"

-- What the server reports in the cases that the modelled statements can run into.
abbrev pub unique_violation : SqlxError
unique_violation = database (some "23505") "duplicate key value violates unique constraint"

abbrev pub foreign_key_violation : SqlxError
foreign_key_violation =
    database (some "23503") "insert or update on table violates foreign key constraint"

abbrev pub lock_not_available : SqlxError
lock_not_available = database (some "55P03") "could not obtain lock on row"
