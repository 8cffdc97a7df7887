-- ===== src/Examples/Workspaces.antt =====
-- A workspace created at a concrete input.
use flowspace_api.Workspace.Repository.Idempotent.Stored.{Answers}
use flowspace_api.Workspace.Repository.Idempotent.{live}
use flowspace_api.Base.{
  ap, ℕ, zero, suc, ◌+◌, true, none, some, [], bytes, ◌≡◌, refl, length, arith,
}
use flowspace_api.Workspace.Run.{Env, World, Outcome, ok, err}
use flowspace_api.Workspace.Domain.{Workspace}
use flowspace_api.Workspace.Repository.{create_workspace}
use flowspace_api.Workspace.Repository.Idempotent.{Uses, idempotent_create, uses_at}
use flowspace_api.Workspace.Repository.Idempotent.Refinement.{create_workspace-refines}
use flowspace_api.Examples.Worlds.{zeros}

-- A hash is 32 bytes of a text, a uuid is read from its length, and nothing fails.
abbrev calm : Env
calm = record {
  sha256 = λ s. zeros 32;
  scan_uuid = λ s. some (length s);
  uuid_text = λ n. zeros n;
  fault = λ n. none;
  statement_timestamp = λ n. n + 100;
  transaction_timestamp = λ n. 100;
  gen_random_uuid = λ n. n + 50;
  lock_is_free = λ n id. true;
}

abbrev empty : World
empty = record { db = record { workspaces = []; memberships = []; creations = [] }; step = 0 }

abbrev plans : Workspace
plans = record { id = zeros 53; name = bytes "Plans"; created_at = 100 }

abbrev after_create : World
after_create = elim (create_workspace (bytes "ann") (bytes "k1") (bytes "Plans") calm empty) [
  | ok a v ↦ v
  | err x v ↦ v
]

create_run :
    create_workspace (bytes "ann") (bytes "k1") (bytes "Plans") calm empty ≡ ok plans after_create
unfolding create_workspace flowspace_api.Workspace.Run.◌>>=◌ flowspace_api.Workspace.Run.asks
    flowspace_api.Workspace.Statements.try_create_workspace_lock
    flowspace_api.Workspace.Run.statement flowspace_api.Workspace.Run.refuse_if
    flowspace_api.Workspace.Statements.delete_expired_workspace_creation
    flowspace_api.Workspace.Statements.get_workspace_creation
    flowspace_api.Workspace.Statements.create_workspace flowspace_api.Encoding.Utf8.rune_count
    flowspace_api.Workspace.Statements.create_workspace_owner
    flowspace_api.Workspace.Statements.record_workspace_creation
create_run = refl

length-zeros : (n : ℕ) → length (zeros n) ≡ n
length-zeros zero = refl
length-zeros (suc n) = omega (arith, length-zeros n)

create_workspace-refines_example :
    ((after : Uses) × (idempotent_create
          (uses_at calm 101 empty.db)
          (bytes "ann")
          (bytes "k1")
          (zeros 32)
          plans
        ≡ some (plans, after))
      × (uses_at calm 101 after_create.db (bytes "ann") (bytes "k1")
          ≡ after (bytes "ann") (bytes "k1")))
    × Answers calm
        (bytes "ann")
        (bytes "Plans")
        (live 101 empty.db (bytes "ann") (bytes "k1"))
        empty.db
        after_create.db
        plans
create_workspace-refines_example =
    create_workspace-refines (bytes "ann") (bytes "k1") (bytes "Plans") (bytes "ann") (bytes "k1")
      calm empty after_create plans (λ m n le. omega arith) (λ n. ap some (length-zeros n))
      create_run
