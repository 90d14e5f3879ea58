-- ===== src/Db/Migrate/Versions.antt =====
-- The versions of the migrations.
use dbos_transact_rs.Prelude.{ℕ, zero, suc, String, ◌≡◌, refl, List, [], ◌∷◌, map, ◌+◌}
use dbos_transact_rs.Prelude.Sort.{sort_by}
use dbos_transact_rs.Db.Migrate.Build.{build_migrations, schema_version}

-- n numbers that follow on a.
abbrev pub count_from : ℕ → ℕ → List ℕ
count_from a zero = []
count_from a (suc n) = (a + 1) ∷ count_from (a + 1) n

-- The migrations are those of the versions from 1 to 40, in this order.
pub build_migrations-versions :
    (text_of : String → String) (schema : String)
    → map (λ m. m.version) (build_migrations text_of schema) ≡ count_from 0 schema_version
unfolding build_migrations sort_by
build_migrations-versions text_of schema = refl
