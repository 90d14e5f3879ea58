-- ===== src/Db/Migrate/Progress.antt =====
-- What a run of the migrations does to the server, whether it ends well or fails: the steps between
-- the recorded versions.
use dbos_transact_rs.Prelude.{
  ℕ, zero, suc, ◌+◌, String, ◌≡◌, refl, sym, ◌∙◌, ap, arith, ◌⊎◌, Bool, true, false, some, List, [],
  ◌∷◌, eqb, if◌then◌else◌,
}
use dbos_transact_rs.Error.DbosError.{DbosError}
use dbos_transact_rs.Exec.{Result, ok, err, pure, settle, proceed}
use dbos_transact_rs.Db.Migrate.Build.{Migration}
use dbos_transact_rs.Db.Migrate.Run.{
  Server, Postgres, raw_sql, drop_statement, drop_each, cleanup_invalid_indexes, is_blank,
  write_version, write_rows, insert_version, update_version, has_version, apply_online,
  apply_catalog, in_world,
}

-- Every SQL text executes without an error.
abbrev pub Works : {W : Type 0} → Postgres W → Type 0
Works {W = W} P = (sql : String) (w : W) → (P.execute sql w).0 ≡ ok tt

-- The tracking table's rows at a version.
abbrev pub row_of : ℕ → List ℕ
row_of zero = []
row_of (suc v) = suc v ∷ []

abbrev pub IsAt : {W : Type 0} → ℕ → Server W → Type 0
IsAt v s = s.tracking ≡ some (row_of v)

abbrev pub Member : Migration → List Migration → Type 0
Member m [] = ⊥
Member m (x ∷ xs) = (m ≡ x) ⊎ Member m xs

abbrev pub Members : List Migration → List Migration → Type 0
Members ms [] = Unit
Members ms (m ∷ rest) = Member m ms × Members ms rest

not_zero : (n : ℕ) → eqb (suc n) 0 ≡ false
not_zero n = ground arith

module _ {W : Type 0} where
  pub write_version-row :
      (v cur : ℕ) (s : Server W)
      → v ≡ cur + 1
      → IsAt cur s
      → write_version v cur s ≡ (ok tt, record s { tracking = some (v ∷ []) })
  unfolding write_version write_rows insert_version update_version has_version
  write_version-row v zero s e h = rw h
  write_version-row v (suc cur) s e h = rw h (rw (not_zero cur))

  -- One step: a catalog migration with its version, an online migration whose version is recorded
  -- or not yet, or the drop of an invalid index before the next version's online migration.
  pub data Step (P : Postgres W) (ms : List Migration) (sanitized : String)
      : ℕ → W → ℕ → W → Type 0 where
    catalog :
        {v : ℕ} {w w' : W} (m : Migration)
        → Member m ms
        → m.online ≡ false
        → m.version ≡ v + 1
        → (if is_blank m.sql then (ok tt, w) else P.execute m.sql w) ≡ (ok tt, w')
        → Step P ms sanitized v w m.version w'
    recorded :
        {v : ℕ} {w w' : W} (m : Migration)
        → Member m ms
        → m.online ≡ true
        → m.version ≡ v + 1
        → P.execute m.sql w ≡ (ok tt, w')
        → Step P ms sanitized v w m.version w'
    unrecorded :
        {v : ℕ} {w w' : W} (m : Migration) (r : Result (Unit {0}))
        → Member m ms
        → m.online ≡ true
        → m.version ≡ v + 1
        → P.execute m.sql w ≡ (r, w')
        → Step P ms sanitized v w v w'
    dropped :
        {v : ℕ} {w w' : W} (name : String) (r : Result (Unit {0}))
        → P.execute (drop_statement sanitized name) w ≡ (r, w')
        → Step P ms sanitized v w v w'

  pub data PathOf (P : Postgres W) (ms : List Migration) (sanitized : String)
      : ℕ → W → ℕ → W → Type 0 where
    stay : {v : ℕ} {w : W} → PathOf P ms sanitized v w v w
    andthen :
        {v u t : ℕ} {w x y : W}
        → Step P ms sanitized v w u x
        → PathOf P ms sanitized u x t y
        → PathOf P ms sanitized v w t y

module _ {W : Type 0} (P : Postgres W) (ms : List Migration) (sanitized : String) where
  pub joined :
      {v u t : ℕ} {w x y : W}
      → PathOf P ms sanitized v w u x
      → PathOf P ms sanitized u x t y
      → PathOf P ms sanitized v w t y
  joined stay q = q
  joined (andthen s p) q = andthen s (joined p q)

  -- The version stays while the world moves on.
  record Keeps (v : ℕ) (s : Server W) (r : Result (Unit {0}) × Server W) : Type 0 where
    tracked : IsAt v s → IsAt v r.1
    moved : PathOf P ms sanitized v s.world v r.1.world
    kept_ok : Works P → r.0 ≡ ok tt

  failed :
      (sql : String) (w x : W) (f : DbosError)
      → P.execute sql w ≡ (err f, x)
      → Works P
      → ◌≡◌ {A = Result (Unit {0})} (err f) (ok tt)
  failed sql w x f eq works = sym (ap (λ r. r.0) eq) ∙ works sql w

  drop_each-Keeps :
      (v : ℕ) (names : List String) (s : Server W) → Keeps v s (drop_each P sanitized names s)
  unfolding drop_each raw_sql
  drop_each-Keeps v [] s = record { tracked = λ h. h; moved = stay; kept_ok = λ _. refl }
  drop_each-Keeps v (name ∷ names) s =
      let rest = drop_each-Keeps v names in
      go (P.execute (drop_statement sanitized name) s.world) refl rest
    where
      go :
          (e : Result (Unit {0}) × W)
          → P.execute (drop_statement sanitized name) s.world ≡ e
          → ((t : Server W) → Keeps v t (drop_each P sanitized names t))
          → Keeps v s (proceed (in_world P s e) (λ _. drop_each P sanitized names))
      go (ok u, w) eq rest =
          let after = rest (record s { world = w }) in
          record {
            tracked = after.tracked;
            moved = andthen (dropped name (ok u) eq) after.moved;
            kept_ok = after.kept_ok;
          }
      go (err f, w) eq rest = record {
        tracked = λ h. h;
        moved = andthen (dropped name (err f) eq) stay;
        kept_ok = failed (drop_statement sanitized name) s.world w f eq;
      }

  cleanup-Keeps :
      (v : ℕ) (cleaned : Bool) (s : Server W)
      → Keeps v s ((if cleaned then pure tt else cleanup_invalid_indexes P sanitized) s)
  unfolding cleanup_invalid_indexes
  cleanup-Keeps v true s = record { tracked = λ h. h; moved = stay; kept_ok = λ _. refl }
  cleanup-Keeps v false s = drop_each-Keeps v (P.invalid_indexes s.world) s

  -- A run from a version ends at a version that is recorded, by steps; without an error it is the
  -- last one.
  pub record Reaches (v : ℕ) (w : W) (last : ℕ) (r : Result (Unit {0}) × Server W) : Type 0 where
    pub version : ℕ
    pub is_at : IsAt version r.1
    pub steps : PathOf P ms sanitized v w version r.1.world
    pub complete : r.0 ≡ ok tt → version ≡ last
    pub succeeds : Works P → r.0 ≡ ok tt

  at_version : (n cur : ℕ) → n ≡ cur + 1 → row_of n ≡ n ∷ []
  at_version zero cur e = absurd (omega (arith, e))
  at_version (suc n) cur e = refl

  module _ (m : Migration) (cur : ℕ) (known : Member m ms) (next : m.version ≡ cur + 1) where
    -- The SQL of an online migration and its version, behind what the cleanup has done.
    after_sql :
        (o : m.online ≡ true) (s : Server W) (h : IsAt cur s) (e : Result (Unit {0}) × W)
        → P.execute m.sql s.world ≡ e
        → Reaches cur s.world m.version
            (proceed (in_world P s e) (λ _. write_version m.version cur))
    after_sql o s h (ok u, w) eq =
        rw (write_version-row m.version cur (record s { world = w }) next h) (record {
          version = m.version;
          is_at = ap (λ r. some r) (sym (at_version m.version cur next));
          steps = andthen (recorded m known o next (eq)) stay;
          complete = λ _. refl;
          succeeds = λ _. refl;
        })
    after_sql o s h (err f, w) eq = record {
      version = cur;
      is_at = h;
      steps = andthen (unrecorded m (err f) known o next eq) stay;
      complete = λ p. absurd (ground (arith, p));
      succeeds = failed m.sql s.world w f eq;
    }

    after_cleanup :
        (o : m.online ≡ true) (s : Server W) (h : IsAt cur s) (r : Result (Unit {0}) × Server W)
        → Keeps cur s r
        → Reaches cur s.world m.version
            (proceed (proceed r (λ _. raw_sql P m.sql)) (λ _. write_version m.version cur))
    unfolding raw_sql
    after_cleanup o s h (ok u, t) k =
        let after = after_sql o t (k.tracked h) (P.execute m.sql t.world) refl in
        record {
          version = after.version;
          is_at = after.is_at;
          steps = joined k.moved after.steps;
          complete = after.complete;
          succeeds = after.succeeds;
        }
    after_cleanup o s h (err f, t) k = record {
      version = cur;
      is_at = k.tracked h;
      steps = k.moved;
      complete = λ p. absurd (ground (arith, p));
      succeeds = k.kept_ok;
    }

    pub apply_online-Reaches :
        (o : m.online ≡ true) (cleaned : Bool) (s : Server W)
        → IsAt cur s
        → Reaches cur s.world m.version (apply_online P sanitized cleaned cur m s)
    unfolding apply_online
    apply_online-Reaches o cleaned s h =
        after_cleanup o s h ((if cleaned then pure tt else cleanup_invalid_indexes P sanitized) s)
          (cleanup-Keeps cur cleaned s)

    no_failure :
        (b : Bool) (w x : W) (f : DbosError)
        → (if b then (ok tt, w) else P.execute m.sql w) ≡ (err f, x)
        → Works P
        → ◌≡◌ {A = Result (Unit {0})} (err f) (ok tt)
    no_failure true w x f eq works = sym (ap (λ r. r.0) eq)
    no_failure false w x f eq works = failed m.sql w x f eq works

    -- The transaction of a catalog migration, by what its SQL does.
    in_transaction :
        (o : m.online ≡ false) (s : Server W) (h : IsAt cur s) (e : Result (Unit {0}) × W)
        → (if is_blank m.sql then (ok tt, s.world) else P.execute m.sql s.world) ≡ e
        → Reaches cur s.world m.version
            (settle s (proceed (in_world P s e) (λ _. write_version m.version cur)))
    in_transaction o s h (ok u, w) eq =
        rw (write_version-row m.version cur (record s { world = w }) next h) (record {
          version = m.version;
          is_at = ap (λ r. some r) (sym (at_version m.version cur next));
          steps = andthen (catalog m known o next eq) stay;
          complete = λ _. refl;
          succeeds = λ _. refl;
        })
    in_transaction o s h (err f, w) eq = record {
      version = cur;
      is_at = h;
      steps = stay;
      complete = λ p. absurd (ground (arith, p));
      succeeds = no_failure (is_blank m.sql) s.world w f eq;
    }

    pub apply_catalog-Reaches :
        (o : m.online ≡ false) (s : Server W)
        → IsAt cur s
        → Reaches cur s.world m.version (apply_catalog P cur m s)
    unfolding apply_catalog raw_sql
    apply_catalog-Reaches o s h = go (is_blank m.sql) refl
      where
        go :
            (b : Bool)
            → is_blank m.sql ≡ b
            → Reaches cur s.world m.version (apply_catalog P cur m s)
        go true e = rw e (in_transaction o s h (ok tt, s.world) (rw e))
        go false e = rw e (in_transaction o s h (P.execute m.sql s.world) (rw e))
