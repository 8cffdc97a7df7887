-- ===== src/Workspace/Repository/Idempotent/Steps.antt =====
-- What the steps of a creation do to the uses of keys
-- (services/workspace/internal/adapter/out/postgres/workspace_repository.go).
use flowspace_api.Base.{
  ℕ, suc, ◌≤◌, ◌≡◌, Bool, true, false, not, List, ◌∷◌, Option, some, find, Text, text_eq, arith,
  sym, ap, ◌∙◌,
}
use flowspace_api.Workspace.Errors.{Err, create_in_progress}
use flowspace_api.Workspace.Run.{
  Env, World, Store, WorkspaceRow, Creation, ok, Reply, rows, refuse_if, asks,
}
use flowspace_api.Workspace.Run.Laws.{bind-ok, asks-ok, refuse_if-ok, statement-ok}
use flowspace_api.Workspace.Domain.{Workspace}
use flowspace_api.Workspace.Statements
use flowspace_api.Workspace.Statements.{
  day, is_for, is_expired, without_expired, insert_workspace, insert_owner, insert_creation,
  try_create_workspace_lock, delete_expired_workspace_creation, get_workspace_creation,
  create_workspace_owner, record_workspace_creation,
}
use flowspace_api.Workspace.Repository.{
  of_creation, of_row, same_request, scan_uuid_or, create_fresh, create_workspace_lock_id,
}
use flowspace_api.Workspace.Repository.Idempotent.{live, find-without_expired, creation_of}

insert_workspace-rows :
    (row r : WorkspaceRow) (d d' : Store)
    → insert_workspace row d ≡ rows r d'
    → (r ≡ row) × (d'.creations ≡ d.creations)
unfolding insert_workspace
insert_workspace-rows row r d d' h = ground arith

insert_owner-rows :
    (id : ℕ) (subject : Text) (d d' : Store) (u : Unit {0})
    → insert_owner id subject d ≡ rows u d'
    → d'.creations ≡ d.creations
unfolding insert_owner
insert_owner-rows id subject d d' u h = ground arith

insert_creation-rows :
    (c : Creation) (d d' : Store) (u : Unit {0})
    → insert_creation c d ≡ rows u d'
    → d'.creations ≡ c ∷ d.creations
unfolding insert_creation
insert_creation-rows c d d' u h = ground arith

-- What a statement of these leaves of the creations, and that it is counted.
abbrev Adds : World → World → List Creation → Type 0
Adds w v cs = (v.step ≡ suc w.step) × (v.db.creations ≡ cs)

create_workspace_row-ok :
    (name : Text) (e : Env) (w v : World) (row : WorkspaceRow)
    → Statements.create_workspace name e w ≡ ok row v
    → Adds w v w.db.creations
unfolding Statements.create_workspace
create_workspace_row-ok name e w v row h =
    let (d, reply, last) = statement-ok _ e w h in
    let (same, kept) =
      insert_workspace-rows
        (record {
          id = e.gen_random_uuid w.step;
          name = name;
          created_at = e.transaction_timestamp w.step;
        })
        row w.db d reply in
    (ap (λ x. x.step) last, ap (λ x. x.db.creations) last ∙ kept)

create_workspace_owner-ok :
    (id : ℕ) (subject : Text) (e : Env) (w v : World) (u : Unit {0})
    → create_workspace_owner id subject e w ≡ ok u v
    → Adds w v w.db.creations
unfolding create_workspace_owner
create_workspace_owner-ok id subject e w v u h =
    let (d, reply, last) = statement-ok _ e w h in
    (
      ap (λ x. x.step) last,
      ap (λ x. x.db.creations) last ∙ insert_owner-rows id subject w.db d u reply,
    )

record_workspace_creation-ok :
    (subject key hash : Text) (row : WorkspaceRow) (e : Env) (w v : World) (u : Unit {0})
    → record_workspace_creation subject key hash row e w ≡ ok u v
    → Adds w v (creation_of subject key hash row (e.statement_timestamp w.step) ∷ w.db.creations)
unfolding record_workspace_creation
record_workspace_creation-ok subject key hash row e w v u h =
    let (d, reply, last) = statement-ok _ e w h in
    (ap (λ x. x.step) last, ap (λ x. x.db.creations) last ∙ insert_creation-rows _ w.db d u reply)

pub scan_uuid_or-ok :
    (x : Err) (value : Text) (e : Env) (w v : World) (id : ℕ)
    → scan_uuid_or x value e w ≡ ok id v
    → (e.scan_uuid value ≡ some id) × (v ≡ w)
unfolding scan_uuid_or
scan_uuid_or-ok x value e w v id h = ground arith

some_inj : {A : Type 0} {a b : A} → some a ≡ some b → a ≡ b
some_inj h = ground arith

not-false : (b : Bool) → not b ≡ false → b ≡ true
not-false b h = ground arith

later : (a b c d f : ℕ) → b ≡ suc a → c ≡ b → d ≡ c → f ≡ suc d → a ≤ f
later a b c d f p q r s = omega arith

-- A new workspace is recorded with its request, at a later statement.
pub create_fresh-ok :
    (subject key name hash : Text) (e : Env) (w v : World) (made : Workspace)
    → ((n : ℕ) → e.scan_uuid (e.uuid_text n) ≡ some n)
    → create_fresh subject key name hash e w ≡ ok made v
    → (row : WorkspaceRow) × (n : ℕ) × (w.step ≤ n)
      × (made ≡ of_row e row)
      × (v.db.creations
          ≡ creation_of subject key hash row (e.statement_timestamp n) ∷ w.db.creations)
unfolding create_fresh
create_fresh-ok subject key name hash e w v made reads h =
    let (row, w1, r1, h1) = bind-ok _ _ e w h in
    let (text, w2, r2, h2) = bind-ok _ _ e w1 h1 in
    let (id, w3, r3, h3) = bind-ok _ _ e w2 h2 in
    let (u, w4, r4, h4) = bind-ok _ _ e w3 h3 in
    let (u', w5, r5, h5) = bind-ok _ _ e w4 h4 in
    let (step1, kept1) = create_workspace_row-ok name e w w1 row r1 in
    let (shown, same2) = asks-ok _ e w1 r2 in
    let (scanned, same3) = scan_uuid_or-ok _ text e w2 w3 id r3 in
    let (step4, kept4) = create_workspace_owner-ok id subject e w3 w4 u r4 in
    let (step5, kept5) =
      record_workspace_creation-ok subject key hash (record row { id = id }) e w4 w5 u' r5 in
    let (gives, last) = asks-ok _ e w5 h5 in
    let same_id = some_inj (sym scanned ∙ (ap e.scan_uuid shown ∙ reads row.id)) in
    (
      row,
      w4.step,
      later w.step w1.step w2.step w3.step w4.step step1 (ap (λ x. x.step) same2)
          (ap (λ x. x.step) same3) step4,
      gives,
      ap (λ x. x.db.creations) last
          ∙ (kept5
              ∙ (ap
                    (λ i.
                      creation_of subject key hash (record row { id = i })
                        (e.statement_timestamp w4.step)
                      ∷ w4.db.creations)
                    same_id
                  ∙ ap (λ cs. creation_of subject key hash row (e.statement_timestamp w4.step) ∷ cs)
                      (kept4
                        ∙ (ap (λ x. x.db.creations) same3
                            ∙ (ap (λ x. x.db.creations) same2 ∙ kept1))))),
    )

pub same_request-ok :
    (hash : Text) (c : Creation) (e : Env) (w v : World) (made : Workspace)
    → same_request hash c e w ≡ ok made v
    → (text_eq c.request_hash hash ≡ true) × (made ≡ of_creation e c) × (v ≡ w)
unfolding same_request
same_request-ok hash c e w v made h =
    let (u, w1, r1, h1) = bind-ok _ _ e w h in
    let (matched, same) = refuse_if-ok _ _ e w r1 in
    let (gives, last) = asks-ok _ e w1 h1 in (not-false _ matched, gives, last ∙ same)

rows-same :
    {A : Type 0} {a b : A} {d d' : Store}
    → ◌≡◌ {A = Reply A} (rows a d) (rows b d')
    → (a ≡ b) × (d ≡ d')
rows-same h = ground arith

try_create_workspace_lock-ok :
    (id : ℕ) (e : Env) (w v : World) (free : Bool)
    → try_create_workspace_lock id e w ≡ ok free v
    → (v.step ≡ suc w.step) × (v.db ≡ w.db)
unfolding try_create_workspace_lock
try_create_workspace_lock-ok id e w v free h =
    let (d, reply, last) = statement-ok _ e w h in
    (ap (λ x. x.step) last, ap (λ x. x.db) last ∙ sym (rows-same reply).1)

delete_expired_workspace_creation-ok :
    (subject key : Text) (e : Env) (w v : World) (n : ℕ)
    → delete_expired_workspace_creation subject key e w ≡ ok n v
    → (v.step ≡ suc w.step)
      × (v.db ≡ without_expired subject key (e.statement_timestamp w.step) w.db)
unfolding delete_expired_workspace_creation
delete_expired_workspace_creation-ok subject key e w v n h =
    let (d, reply, last) = statement-ok _ e w h in
    (ap (λ x. x.step) last, ap (λ x. x.db) last ∙ sym (rows-same reply).1)

get_workspace_creation-ok :
    (subject key : Text) (e : Env) (w v : World) (found : Option Creation)
    → get_workspace_creation subject key e w ≡ ok found v
    → (v.step ≡ suc w.step) × (v.db ≡ w.db) × (found ≡ find (is_for subject key) w.db.creations)
unfolding get_workspace_creation
get_workspace_creation-ok subject key e w v found h =
    let (d, reply, last) = statement-ok _ e w h in
    (ap (λ x. x.step) last, ap (λ x. x.db) last ∙ sym (rows-same reply).1, sym (rows-same reply).0)

later_still :
    (a b c d f g i : ℕ) → b ≡ a → c ≡ suc b → d ≡ c → f ≡ suc d → g ≡ f → i ≡ suc g → suc a ≤ i
later_still a b c d f g i p q r s t u = omega arith

-- What the steps before the creation give, and what they leave.
pub looked_up-ok :
    (subject key name : Text) (lock_id deleted : ℕ) (locked : Bool) (free : Unit {0}) (hash : Text)
    (found : Option Creation) (e : Env) (w w1 w2 w3 w4 w5 w6 : World)
    → asks (λ e. create_workspace_lock_id e subject key) e w ≡ ok lock_id w1
    → try_create_workspace_lock lock_id e w1 ≡ ok locked w2
    → refuse_if (not locked) create_in_progress e w2 ≡ ok free w3
    → delete_expired_workspace_creation subject key e w3 ≡ ok deleted w4
    → asks (λ e. e.sha256 name) e w4 ≡ ok hash w5
    → get_workspace_creation subject key e w5 ≡ ok found w6
    → (suc w.step ≤ w6.step)
      × (hash ≡ e.sha256 name)
      × (found ≡ live (e.statement_timestamp (suc w.step)) w.db subject key)
      × (w6.db ≡ without_expired subject key (e.statement_timestamp (suc w.step)) w.db)
looked_up-ok subject key name lock_id deleted locked free hash found e w w1 w2 w3 w4 w5 w6 r1 r2 r3
      r4 r5 r6 =
    let now = e.statement_timestamp (suc w.step) in
    let same1 = (asks-ok _ e w r1).1 in
    let (step2, db2) = try_create_workspace_lock-ok lock_id e w1 w2 locked r2 in
    let same3 = (refuse_if-ok _ _ e w2 r3).1 in
    let (step4, db4) = delete_expired_workspace_creation-ok subject key e w3 w4 deleted r4 in
    let (hashed, same5) = asks-ok _ e w4 r5 in
    let (step6, db6, looked) = get_workspace_creation-ok subject key e w5 w6 found r6 in
    let at_delete = ap (λ x. x.step) same3 ∙ (step2 ∙ ap (λ x. suc (x.step)) same1) in
    let before = ap (λ x. x.db) same3 ∙ (db2 ∙ ap (λ x. x.db) same1) in
    let db5 =
      ap (λ x. x.db) same5
      ∙ (db4
          ∙ (ap (λ n. without_expired subject key (e.statement_timestamp n) w3.db) at_delete
              ∙ ap (without_expired subject key now) before)) in
    (
      later_still w.step w1.step w2.step w3.step w4.step w5.step w6.step (ap (λ x. x.step) same1)
          step2 (ap (λ x. x.step) same3) step4 (ap (λ x. x.step) same5) step6,
      hashed,
      looked
          ∙ (ap (λ x. find (is_for subject key) (x.creations)) db5
              ∙ find-without_expired now w.db subject key),
      db6 ∙ db5,
    )
