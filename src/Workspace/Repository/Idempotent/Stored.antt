-- ===== src/Workspace/Repository/Idempotent/Stored.antt =====
-- What a creation stores
-- (services/workspace/internal/adapter/out/postgres/workspace_repository.go).
use flowspace_api.Base.{
  ℕ, ◌≡◌, refl, false, ◌∷◌, Option, none, some, ◌==◌, any, Text, arith, sym, ap, ◌∙◌, ◌⊎◌, inl, inr,
}
use flowspace_api.Workspace.Run.{Env, World, Store, WorkspaceRow, Membership, Creation, ok, rows}
use flowspace_api.Workspace.Run.Laws.{bind-ok, asks-ok, statement-ok}
use flowspace_api.Workspace.Domain.{Workspace}
use flowspace_api.Workspace.Statements
use flowspace_api.Workspace.Statements.{
  owner, insert_workspace, insert_owner, insert_creation, create_workspace_owner,
  record_workspace_creation,
}
use flowspace_api.Workspace.Repository.{of_row, of_creation, create_fresh, create_unless_known}
use flowspace_api.Workspace.Repository.Idempotent.Steps.{scan_uuid_or-ok, same_request-ok}

insert_workspace-added :
    (row r : WorkspaceRow) (d d' : Store)
    → insert_workspace row d ≡ rows r d'
    → (r ≡ row)
      × (any (λ x. x.id == row.id) d.workspaces ≡ false)
      × (d'.workspaces ≡ row ∷ d.workspaces)
      × (d'.memberships ≡ d.memberships)
unfolding insert_workspace
insert_workspace-added row r d d' h = ground arith

abbrev pub owned_by : Text → ℕ → Membership
owned_by subject id = record { workspace_id = id; subject = subject; role = owner }

insert_owner-added :
    (id : ℕ) (subject : Text) (d d' : Store) (u : Unit {0})
    → insert_owner id subject d ≡ rows u d'
    → (d'.workspaces ≡ d.workspaces) × (d'.memberships ≡ owned_by subject id ∷ d.memberships)
unfolding insert_owner
insert_owner-added id subject d d' u h = ground arith

insert_creation-kept :
    (c : Creation) (d d' : Store) (u : Unit {0})
    → insert_creation c d ≡ rows u d'
    → (d'.workspaces ≡ d.workspaces) × (d'.memberships ≡ d.memberships)
unfolding insert_creation
insert_creation-kept c d d' u h = ground arith

-- A workspace with that name and a new id was stored, and the subject as its one owner.
abbrev pub IsStored : Env → Text → Text → Store → Store → Workspace → Type 0
IsStored e subject name d d' made =
    (row : WorkspaceRow) × (made ≡ of_row e row)
    × (row.name ≡ name)
    × (any (λ x. x.id == row.id) d.workspaces ≡ false)
    × (d'.workspaces ≡ row ∷ d.workspaces)
    × (d'.memberships ≡ owned_by subject row.id ∷ d.memberships)

create_fresh-IsStored :
    (subject key name hash : Text) (e : Env) (w v : World) (made : Workspace)
    → ((n : ℕ) → e.scan_uuid (e.uuid_text n) ≡ some n)
    → create_fresh subject key name hash e w ≡ ok made v
    → IsStored e subject name w.db v.db made
unfolding create_fresh Statements.create_workspace create_workspace_owner record_workspace_creation
create_fresh-IsStored subject key name hash e w v made reads h =
    let (row, w1, r1, h1) = bind-ok _ _ e w h in
    let (text, w2, r2, h2) = bind-ok _ _ e w1 h1 in
    let (id, w3, r3, h3) = bind-ok _ _ e w2 h2 in
    let (u, w4, r4, h4) = bind-ok _ _ e w3 h3 in
    let (u', w5, r5, h5) = bind-ok _ _ e w4 h4 in
    let (d1, reply1, last1) = statement-ok _ e w r1 in
    let (same_row, fresh, added, kept) = insert_workspace-added _ row w.db d1 reply1 in
    let (shown, same2) = asks-ok _ e w1 r2 in
    let (scanned, same3) = scan_uuid_or-ok _ text e w2 w3 id r3 in
    let (d4, reply4, last4) = statement-ok _ e w3 r4 in
    let (kept4, added4) = insert_owner-added id subject w3.db d4 u reply4 in
    let (d5, reply5, last5) = statement-ok _ e w4 r5 in
    let (kept5, kept5') = insert_creation-kept _ w4.db d5 u' reply5 in
    let (gives, last) = asks-ok _ e w5 h5 in
    let same_id = some_inj (sym scanned ∙ (ap e.scan_uuid shown ∙ reads row.id)) in
    let db3 = ap (λ x. x.db) same3 ∙ (ap (λ x. x.db) same2 ∙ ap (λ x. x.db) last1) in
    let db5 = ap (λ x. x.db) last ∙ ap (λ x. x.db) last5 in
    let db4 = ap (λ x. x.db) last4 in
    (
      row,
      gives,
      ap (λ r. r.name) same_row,
      ap (λ r. any (λ x. x.id == r.id) w.db.workspaces) same_row ∙ fresh,
      ap (λ x. x.workspaces) db5
          ∙ (kept5
              ∙ (ap (λ x. x.workspaces) db4
                  ∙ (kept4
                      ∙ (ap (λ x. x.workspaces) db3
                          ∙ (added ∙ ap (λ r. r ∷ w.db.workspaces) (sym same_row)))))),
      ap (λ x. x.memberships) db5
          ∙ (kept5'
              ∙ (ap (λ x. x.memberships) db4
                  ∙ (added4
                      ∙ (ap (λ i. owned_by subject i ∷ w3.db.memberships) same_id
                          ∙ ap (λ ms. owned_by subject row.id ∷ ms)
                              (ap (λ x. x.memberships) db3 ∙ kept))))),
    )
  where
    some_inj : {a b : ℕ} → some a ≡ some b → a ≡ b
    some_inj k = ground arith

-- A known creation is answered and nothing is stored; otherwise a new workspace is stored.
abbrev pub Answers : Env → Text → Text → Option Creation → Store → Store → Workspace → Type 0
Answers e subject name found d d' made =
    ((c : Creation) × (found ≡ some c)
      × (made ≡ of_creation e c)
      × (d'.workspaces ≡ d.workspaces)
      × (d'.memberships ≡ d.memberships))
    ⊎ ((found ≡ none) × IsStored e subject name d d' made)

pub create_unless_known-Answers :
    (subject key name hash : Text) (found : Option Creation) (e : Env) (w v : World)
    (made : Workspace)
    → ((n : ℕ) → e.scan_uuid (e.uuid_text n) ≡ some n)
    → create_unless_known subject key name hash found e w ≡ ok made v
    → Answers e subject name found w.db v.db made
unfolding create_unless_known
create_unless_known-Answers subject key name hash none e w v made reads h =
    inr (refl, create_fresh-IsStored subject key name hash e w v made reads h)
create_unless_known-Answers subject key name hash (some c) e w v made reads h =
    let (matched, gives, last) = same_request-ok hash c e w v made h in
    inl (c, refl, gives, ap (λ x. x.db.workspaces) last, ap (λ x. x.db.memberships) last)
