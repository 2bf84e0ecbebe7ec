-- ===== src/Cli/Change/Safety.antt =====
-- `garance db migrate` asks before it destroys, and applies what it has saved.
use garance.Prelude.{
  ℕ, ◌≡◌, refl, ap, sym, Bool, true, not, ◌&&◌, Str, bytes, ◌++◌, some, ◌⊎◌, inl, inr, ◌==◌, nat_eq,
  nat_beq_iff, if◌then◌else◌, arith,
}
use garance.Exec.{Result, World, Action, read_clock, pure, raise, catch, wrapped, lift, ◌>>=◌}
use garance.Exec.Keeps.{
  Keeps, Keeps-bind, Keeps-wrapped, Keeps-catch, Keeps-lift, Keeps-pure, Keeps-raise, Keeps-send,
}
use garance.Exec.Ends.{
  Ends, Post, Ends-bind, Ends-if, Ends-wrapped, Ends-pure, Ends-raise, Ends-given, Ends-assume,
  Ends-lift, Ends-statement, Ends-of-Keeps, Ends-weaken, Ends-always, Ends-read_clock, keep_post,
}
use garance.Cli.Machine.{
  Machine, Outside, Node, Payload, Preview, Body, find, join, getenv, stat, write_file, remove_file,
  read_disk, FilePath, ask, Disk, written,
}
use garance.Cli.Machine.Rules.{
  Ends-on_server, Ends-on_disk, Keeps-deferred, Keeps-on_disk, written-find,
}
use garance.Cli.Schema.{compile}
use garance.Cli.Change.{
  parse_preview, is_yes, migration_name, apply_migration, save_and_apply, ask_first, confirm,
  previewed, after_dir, request, engine_or_default, db_migrate,
}

module _ (O : Outside) (assume_yes : Bool) (start : Machine O.Server) where
  open O use {Server, post}

  -- The Engine's answer to the preview of a schema, and the server after it.
  abbrev pub Answered : Str → Str → ℕ × Payload → Server → Type 0
  Answered url schema reply t =
      post (url ++ bytes "/api/v1/_migrate/preview") (Body.desired_schema schema) start.server
      ≡ (Result.ok reply, t)

  -- A migration that may be applied: a destructive one only with --yes or after the answer "y".
  abbrev pub IsAllowed : Preview → Type 0
  IsAllowed p = p.destructive ≡ true → (assume_yes ≡ true) ⊎ (is_yes start.typed ≡ true)

  -- What the server and the disk may be after `garance db migrate`.
  pub data Served (m : Machine Server) : Type 0 where
    untouched : m.server ≡ start.server → Served m
    asked :
        (url schema : Str)
        → m.server
          ≡ (post
              (url ++ bytes "/api/v1/_migrate/preview")
              (Body.desired_schema schema)
              start.server).1
        → Served m
    applied :
        (url schema : Str) (p : Preview) (now : ℕ) {t : Server}
        → Answered url schema (200, Payload.preview p) t
        → p.has_changes ≡ true
        → IsAllowed p
        → m.server ≡ (post (url ++ bytes "/api/v1/_migrate/apply") (Body.apply_sql p.sql) t).1
        → find (join (join start.dir (bytes "migrations")) (migration_name O now p)) m.disk
          ≡ some (Node.file p.sql)
        → Served m

  abbrev Quiet : Machine Server → Type 0
  Quiet m = (m.server ≡ start.server) × (m.typed ≡ start.typed)

  compile-Quiet : (dir : FilePath) → Keeps Quiet (compile O dir)
  unfolding compile
  compile-Quiet dir =
      Keeps-bind (catch (stat _) _) _
        (Keeps-catch (stat _) _ (Keeps-send _ (λ t m p. p)) (λ e. Keeps-raise _))
        λ _.
          Keeps-bind (wrapped _ (write_file _ _)) _
            (Keeps-wrapped _ (write_file _ _) (Keeps-on_disk _ (λ m d p. p)))
            λ _. Keeps-deferred (remove_file _) _ (Keeps-on_disk _ (λ m d p. p)) (
              Keeps-bind (wrapped _ (read_disk _)) _
                (Keeps-wrapped _ (read_disk _) (Keeps-send _ (λ t m p. p)))
                λ output. Keeps-bind (lift _) _ (Keeps-lift _) λ raw.
                  Keeps-bind (wrapped _ (write_file _ _)) _
                    (Keeps-wrapped _ (write_file _ _) (Keeps-on_disk _ (λ m d p. p)))
                    λ _. Keeps-pure raw)

  module _ (url schema : Str) where
    -- After the preview.
    abbrev Asked : ℕ × Payload → Machine Server → Type 0
    Asked reply m = Answered url schema reply m.server × (m.typed ≡ start.typed)

    Asked-Served : (reply : ℕ × Payload) (m : Machine Server) → Asked reply m → Served m
    Asked-Served reply m h =
        asked url schema (sym (ap (λ (x : Result (ℕ × Payload) × Server). x.1) h.0))

    after_disk :
        {A : Type 0} (reply : ℕ × Payload) (r : Result A) (m : Machine Server) (d : Disk)
        → Asked reply m
        → Post (λ _. Asked reply) Served r (record m { disk = d })
    after_disk reply (Result.ok a) m d h = h
    after_disk reply (Result.err e) m d h = Asked-Served reply _ h
    after_disk reply Result.panic m d h = Asked-Served reply _ h

    module _ (p : Preview) (changes : p.has_changes ≡ true) (allowed : IsAllowed p) where
      -- After the migration file is written.
      abbrev Saved : ℕ → Machine Server → Type 0
      Saved now m =
          Asked (200, Payload.preview p) m
          × (find (join (join start.dir (bytes "migrations")) (migration_name O now p)) m.disk
              ≡ some (Node.file p.sql))

      apply_migration-Served :
          (now : ℕ) → Ends (Saved now) (apply_migration O url p) (λ _. Served) Served
      unfolding apply_migration
      apply_migration-Served now =
          Ends-bind {R = λ _. Served} (wrapped _ _) _
            (Ends-wrapped _ _ (
              Ends-on_server _ (λ m h. Asked-Served _ m h.0)
                λ m r t h run. keep_post Served r _ (
                  applied url schema p now h.0.0 changes allowed
                    (sym (ap (λ (x : Result (ℕ × Payload) × Server). x.1) run)) h.1)))
            λ reply.
              Ends-if _ (raise _) (pure tt) (λ _. Ends-raise _ (λ m h. h))
                (λ _. Ends-pure tt (λ m h. h))

      after_write :
          (now : ℕ) (m : Machine Server) (r : Result (Unit {0})) (d : Disk)
          → Asked (200, Payload.preview p) m
          → written
              (join (join start.dir (bytes "migrations")) (migration_name O now p))
              p.sql
              m.disk
            ≡ (r, d)
          → Post (λ _. Saved now) Served r (record m { disk = d })
      after_write now m (Result.ok _) d h run = (
        h,
        rw run at (written-find _ p.sql m.disk (ap (λ (x : Result (Unit {0}) × Disk). x.0) run)),
      )
      after_write now m (Result.err e) d h run = Asked-Served _ _ h
      after_write now m Result.panic d h run = Asked-Served _ _ h

      save_and_apply-Served :
          Ends
            (Asked (200, Payload.preview p))
            (save_and_apply O start.dir url p)
            (λ _. Served)
            Served
      unfolding save_and_apply
      save_and_apply-Served =
          Ends-bind {R = λ _. Asked reply} {E = Served} (wrapped _ _) _
            (Ends-wrapped _ _
              (Ends-on_disk _ (Asked-Served reply) λ m r d h run. after_disk reply r m d h))
            λ _. Ends-bind {R = λ now. Asked reply} {E = Served} read_clock _ Ends-read_clock λ now.
              Ends-bind {R = λ _. Saved now} {E = Served} (wrapped _ _) _
                (Ends-wrapped _ _ (Ends-on_disk _ (Asked-Served reply) (after_write now)))
                λ _. apply_migration-Served now
        where
          reply : ℕ × Payload
          reply = (200, Payload.preview p)

    after_parse :
        (status : ℕ) (body : Payload) (m : Machine Server)
        → Asked (status, body) m
        → Post
            (λ p m. Asked (status, body) m × (body ≡ Payload.preview p))
            Served
            (parse_preview body)
            m
    after_parse status (Payload.preview p) m h = (h, refl)
    after_parse status (Payload.other s) m h = Asked-Served _ m h

    module _ (p : Preview) (changes : p.has_changes ≡ true) where
      abbrev Previewed : Machine Server → Type 0
      Previewed = Asked (200, Payload.preview p)

      ask_first-Served : Ends Previewed (ask_first O start.dir url p) (λ _. Served) Served
      unfolding ask_first
      ask_first-Served =
          Ends-bind {R = λ answer m. Previewed m × (answer ≡ start.typed)} {E = Served}
            (ask λ m. m.typed) _ (Ends-statement _ λ t m h. (h, h.1))
            λ answer.
              Ends-if (not (is_yes answer)) (pure tt) (save_and_apply O start.dir url p)
                (λ _. Ends-pure tt (λ m h. Asked-Served _ m h.0))
                λ said. Ends-given _ λ m h.
                  Ends-assume _ (λ m h. h.0)
                    (save_and_apply-Served p changes λ _. inr (rw (← h.1) (ground arith)))

      confirm-Served : Ends Previewed (confirm O assume_yes start.dir url p) (λ _. Served) Served
      unfolding confirm
      confirm-Served =
          Ends-if (p.destructive && not assume_yes) (ask_first O start.dir url p)
            (save_and_apply O start.dir url p) (λ _. ask_first-Served)
            λ safe. save_and_apply-Served p changes (λ destructive. inl (ground arith))

    abbrev Decoded : ℕ × Payload → Preview → Machine Server → Type 0
    Decoded reply p m = Asked reply m × (reply.1 ≡ Payload.preview p)

    Decoded-Previewed :
        (status : ℕ) (body : Payload) (p : Preview) (m : Machine Server)
        → status ≡ 200
        → Decoded (status, body) p m
        → Asked (200, Payload.preview p) m
    Decoded-Previewed status body p m e h = rw (e, h.1) at h.0

    previewed-Served :
        (reply : ℕ × Payload)
        → Ends (Asked reply) (previewed O assume_yes start.dir url reply) (λ _. Served) Served
    unfolding previewed
    previewed-Served (status, body) =
        Ends-if (not (status == 200)) (raise _) (lift (parse_preview body) >>= follow)
          (λ _. Ends-raise _ (Asked-Served (status, body)))
          λ accepted.
            Ends-bind {R = Decoded (status, body)} {E = Served} (lift (parse_preview body)) follow
              (Ends-lift _ (after_parse status body))
              λ p.
                Ends-if (not p.has_changes) (pure tt) (confirm O assume_yes start.dir url p)
                  (λ _. Ends-pure tt (λ m h. Asked-Served _ m h.0))
                  λ changes.
                    Ends-assume _
                      (λ m h.
                        Decoded-Previewed status body p m (ground (arith, nat_beq_iff status 200))
                          h)
                      (confirm-Served p (ground arith))
      where
        follow : Preview → Action (Machine Server) (Unit {0})
        follow p = if not p.has_changes then pure tt else confirm O assume_yes start.dir url p

  request_post :
      (url schema : Str) (m : Machine Server) (r : Result (ℕ × Payload)) (t : Server)
      → Quiet m
      → post (url ++ bytes "/api/v1/_migrate/preview") (Body.desired_schema schema) m.server
        ≡ (r, t)
      → Post (Asked url schema) Served r (record m { server = t })
  request_post url schema m (Result.ok reply) t h run = (rw h.0 at run, h.1)
  request_post url schema m (Result.err e) t h run =
      asked url schema (sym (ap (λ (x : Result (ℕ × Payload) × Server). x.1) (rw h.0 at run)))
  request_post url schema m Result.panic t h run =
      asked url schema (sym (ap (λ (x : Result (ℕ × Payload) × Server). x.1) (rw h.0 at run)))

  after_dir-Served : Ends Quiet (after_dir O assume_yes start.dir) (λ _. Served) Served
  unfolding after_dir
  after_dir-Served =
      Ends-bind {R = λ url. Quiet} {E = Served} (getenv (bytes "ENGINE_URL")) _
        (Ends-statement _ λ t m h. h)
        λ url.
          Ends-bind {R = λ schema. Quiet} {E = Served}
            (wrapped "compilation failed" (compile O start.dir)) _
            (Ends-weaken _ (λ m h. untouched h.0)
              (Ends-of-Keeps _ (Keeps-wrapped _ (compile O start.dir) (compile-Quiet start.dir))))
            λ schema.
              Ends-bind {R = Asked (engine_or_default url) schema} {E = Served}
                (wrapped "failed to connect to Engine" (
                  request O (engine_or_default url ++ bytes "/api/v1/_migrate/preview")
                    (Body.desired_schema schema)))
                _
                (Ends-wrapped _ _ (
                  Ends-on_server _ (λ m h. untouched h.0)
                    (request_post (engine_or_default url) schema)))
                (previewed-Served (engine_or_default url) schema)

  db_migrate-Ends : Ends (λ m. m ≡ start) (db_migrate O assume_yes) (λ _. Served) Served
  unfolding db_migrate
  db_migrate-Ends =
      Ends-bind {R = λ dir m. Quiet m × (dir ≡ start.dir)} {E = Served} (ask λ m. m.dir)
        (after_dir O assume_yes)
        (Ends-statement _ λ t m h. (
          (ap (λ (m : Machine Server). m.server) h, ap (λ (m : Machine Server). m.typed) h),
          ap (λ (m : Machine Server). m.dir) h,
        ))
        λ dir. Ends-given _ λ m h. rw h.1 (Ends-assume _ (λ m h. h.0) after_dir-Served)

-- Whatever fails and whatever the Engine answers, `garance db migrate` leaves the server as it
-- was, or with one request for a preview, or with the SQL of that preview applied once after it;
-- the SQL is applied only if the preview has changes and, where it is destructive, only with --yes
-- or after the answer "y", and it is then in a file of migrations/ on the disk.
pub db_migrate-Served :
    (O : Outside) (assume_yes : Bool) (w : World (Machine O.Server))
    → Served O assume_yes w.db (db_migrate O assume_yes w).1.db
db_migrate-Served O assume_yes w =
    Ends-always (db_migrate O assume_yes) (db_migrate-Ends O assume_yes w.db) w refl
