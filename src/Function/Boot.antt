-- ===== src/Function/Boot.antt =====
-- `bootstrap` of terraform/function/handler.go.
pub mod Laws
use s21_identity_service.Base.{Bool, false, Option, none, some, [], ◌==◌, text_eq, if◌then◌else◌}
use s21_identity_service.Text.{Text, codes}
use s21_identity_service.Text.Case.{CaseTable}
use s21_identity_service.Store.{Store, Time}
use s21_identity_service.MemStore.{mem_store, empty}
use s21_identity_service.YdbStore.{ydb_store}
use s21_identity_service.YdbStore.Service.{Ydb}
use s21_identity_service.Api.Server
use s21_identity_service.Api.Server.{Server}

-- The server, with the store that was chosen for it.
pub record Booted : Type 1 where
  pub store : Store
  pub server : Server store

module _ (table : CaseTable) (y : Ydb) (now : Time) where
  -- `api.New` over the store that `ydbstore.Open` has opened, or else over one in memory.
  unfoldable pub opened : Option y.State → Booted
  unfolding Server.new
  opened (some connected) = record {
    store = ydb_store y table now;
    server = Server.new {S = ydb_store y table now} connected;
  }
  opened none = record { store = mem_store table; server = Server.new {S = mem_store table} empty }

  -- The two variables of the environment, and what opening YDB comes to.
  unfoldable pub bootstrap : Text → Text → Option y.State → Booted
  unfolding opened
  bootstrap endpoint enforce connection =
      let booted = opened (if endpoint == [] then none else connection) in
      if enforce == codes "false"
      then record booted { server = record booted.server { enforce_api_key = false } }
      else booted
