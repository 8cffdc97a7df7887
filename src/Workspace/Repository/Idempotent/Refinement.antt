-- ===== src/Workspace/Repository/Idempotent/Refinement.antt =====
-- A creation is a step of the abstract state
-- (services/workspace/internal/adapter/out/postgres/workspace_repository.go).
use flowspace_api.Base.{
  ℕ, suc, ◌≤◌, ◌≡◌, refl, ◌&&◌, Option, none, some, if◌then◌else◌, Text, text_eq, arith, sym, ap,
  subst, ◌∙◌,
}
use flowspace_api.Workspace.Run.{Env, World, Store, Creation, ok}
use flowspace_api.Workspace.Run.Laws.{bind-ok}
use flowspace_api.Workspace.Domain.{Workspace}
use flowspace_api.Workspace.Statements.{without_expired}
use flowspace_api.Workspace.Repository.{create_unless_known, create_workspace}
use flowspace_api.Workspace.Repository.Idempotent.{
  Uses, idempotent_use, idempotent_create, use_of, live, uses_at, live-without_expired,
  uses-created,
}
use flowspace_api.Workspace.Repository.Idempotent.Steps.{
  create_fresh-ok, same_request-ok, looked_up-ok,
}
use flowspace_api.Workspace.Repository.Idempotent.Stored.{Answers, create_unless_known-Answers}

-- The abstract step, and the state after it as the tables hold it.
abbrev Refines : Env → ℕ → Text → Text → Text → Text → Text → Store → Store → Workspace → Type 0
Refines e now subject key hash s k d d' made =
    (after : Uses) × (idempotent_create (uses_at e now d) subject key hash made
      ≡ some (made, after))
    × (uses_at e now d' s k ≡ after s k)

create_unless_known-Refines :
    (subject key name hash s k : Text) (found : Option Creation) (now : ℕ) (d : Store) (e : Env)
    (w v : World) (made : Workspace)
    → ((n : ℕ) → w.step ≤ n → now ≤ e.statement_timestamp n)
    → ((n : ℕ) → e.scan_uuid (e.uuid_text n) ≡ some n)
    → found ≡ live now d subject key
    → w.db ≡ without_expired subject key now d
    → create_unless_known subject key name hash found e w ≡ ok made v
    → Refines e now subject key hash s k d v.db made
unfolding create_unless_known
create_unless_known-Refines subject key name hash s k (some c) now d e w v made clock reads f g h =
    let (matched, gives, last) = same_request-ok hash c e w v made h in
    (
      uses_at e now d,
      ap (λ o. idempotent_use (use_of e o) (uses_at e now d) subject key hash made) (sym f)
          ∙ (rw (matched) refl ∙ ap (λ x. some (x, uses_at e now d)) (sym gives)),
      ap (λ x. uses_at e now (x.db) s k) last
          ∙ (ap (λ x. uses_at e now x s k) g
              ∙ ap (use_of e) (live-without_expired subject key now d s k)),
    )
create_unless_known-Refines subject key name hash s k none now d e w v made clock reads f g h =
    let (row, n, ordered, gives, added) =
      create_fresh-ok subject key name hash e w v made reads h in
    let uses = uses_at e now d in
    (
      (λ t l. if text_eq subject t && text_eq key l then some (hash, made) else uses t l),
      ap (λ o. idempotent_use (use_of e o) uses subject key hash made) (sym f),
      uses-created e now (e.statement_timestamp n) subject key hash row w.db v.db s k
            (clock n ordered) added
          ∙ (ap
                (λ x.
                  if text_eq subject s && text_eq key k
                  then some (hash, x)
                  else uses_at e now w.db s k)
                (sym gives)
              ∙ ap (λ x. if text_eq subject s && text_eq key k then some (hash, made) else x)
                  (ap (λ x. uses_at e now x s k) g
                    ∙ ap (use_of e) (live-without_expired subject key now d s k))),
    )

le_trans : {a b c : ℕ} → a ≤ b → b ≤ c → a ≤ c
le_trans h k = omega arith

-- A creation that succeeds is a step of the abstract state at the time at which it deleted the
-- expired use of its key: the workspace is the one that the abstract step gives, and every key has
-- after it the use that it has in the abstract state. If the key has a live use, the workspace is
-- that one's and no workspace or membership is stored; if not, a workspace of the given name is
-- stored with an id that no workspace has, and the subject as its owner. The clock does not go back,
-- and a uuid is read back from its text.
pub create_workspace-refines :
    (subject key name s k : Text) (e : Env) (w v : World) (made : Workspace)
    → ((m n : ℕ) → m ≤ n → e.statement_timestamp m ≤ e.statement_timestamp n)
    → ((n : ℕ) → e.scan_uuid (e.uuid_text n) ≡ some n)
    → create_workspace subject key name e w ≡ ok made v
    → ((after : Uses) × (idempotent_create
            (uses_at e (e.statement_timestamp (suc w.step)) w.db)
            subject
            key
            (e.sha256 name)
            made
          ≡ some (made, after))
        × (uses_at e (e.statement_timestamp (suc w.step)) v.db s k ≡ after s k))
      × Answers e subject name
          (live (e.statement_timestamp (suc w.step)) w.db subject key)
          w.db
          v.db
          made
unfolding create_workspace
create_workspace-refines subject key name s k e w v made clock reads h =
    let now = e.statement_timestamp (suc w.step) in
    let (lock_id, w1, r1, h1) = bind-ok _ _ e w h in
    let (locked, w2, r2, h2) = bind-ok _ _ e w1 h1 in
    let (free, w3, r3, h3) = bind-ok _ _ e w2 h2 in
    let (deleted, w4, r4, h4) = bind-ok _ _ e w3 h3 in
    let (hash, w5, r5, h5) = bind-ok _ _ e w4 h4 in
    let (found, w6, r6, h6) = bind-ok _ _ e w5 h5 in
    let (ordered, hashed, looked, deleted_db) =
      looked_up-ok subject key name lock_id deleted locked free hash found e w w1 w2 w3 w4 w5 w6 r1
        r2 r3 r4 r5 r6 in
    let run =
      subst (λ x. create_unless_known subject key name x found e w6 ≡ ok made v) hashed h6 in
    (
      create_unless_known-Refines subject key name (e.sha256 name) s k found now w.db e w6 v made
          (λ n le. clock (suc w.step) n (le_trans ordered le)) reads looked deleted_db run,
      subst (λ o. Answers e subject name o w.db v.db made) looked
          (answers_from found w6.db deleted_db (
            create_unless_known-Answers subject key name (e.sha256 name) found e w6 v made reads
              run)),
    )
  where
    answers_from :
        (found : Option Creation) (d : Store)
        → d ≡ without_expired subject key (e.statement_timestamp (suc w.step)) w.db
        → Answers e subject name found d v.db made
        → Answers e subject name found w.db v.db made
    answers_from found d same a = subst (λ x. Answers e subject name found x v.db made) same a
