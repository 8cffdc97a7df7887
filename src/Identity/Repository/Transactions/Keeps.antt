-- ===== src/Identity/Repository/Transactions/Keeps.antt =====
-- What the steps of a repository leave true of the tables
-- (services/identity/internal/adapter/out/postgres/account_repository.go).
use flowspace_api.Base.{Option, none, some, Text, ℕ}
use flowspace_api.Identity.Database.{Database}
use flowspace_api.Identity.Errors.{Err}
use flowspace_api.Identity.Run.{ok, err}
use flowspace_api.Identity.Run.Laws.{world_of}
use flowspace_api.Identity.Run.Keeps.{Keeps}
use flowspace_api.Identity.Repository.Transactions.{parse_uuid_or}

pub parse_uuid_or-Keeps :
    (P : Database → Type 0) (x : Err) (value : Text) → Keeps P (parse_uuid_or x value)
unfolding parse_uuid_or
parse_uuid_or-Keeps P x value e w p = by_parse (e.parse_uuid value)
  where
    by_parse :
        (o : Option ℕ) → P ((world_of {A = ℕ} (elim o [ some id ↦ ok id w | none ↦ err x w ])).db)
    by_parse (some id) = p
    by_parse none = p
