-- ===== src/Startup/Connecting.antt =====
-- `Database` of src/database.rs. The r2d2 pool and the postgres crate are outside.
use infernal_pf2e_parser_sim.Base.{Bool, not, Option, List, is_empty, if◌then◌else◌}
use infernal_pf2e_parser_sim.Std.Text.{Text, codes, trim}
use infernal_pf2e_parser_sim.Domain.{
  database, DatabaseError, missing_environment, empty_url, invalid_postgres_config, pool, query,
}
use infernal_pf2e_parser_sim.Result.{Result, map_err, ok_or, and_then}
use infernal_pf2e_parser_sim.Stateful.{pure, fail, lift, ◌>>=◌, ◌>>◌}
use infernal_pf2e_parser_sim.Startup.Steps.{
  Step, Starting, ask, open_pool, check_connection, migrate,
}

abbrev pub database_url_env : Text
database_url_env = codes "PF2E_PARSER_DATABASE_URL"

-- whether a text is a configuration of the postgres crate, and what the pool and a connection of
-- it answer behind these steps
pub record PoolApi : Type 0 where
  pub is_config : Text → Bool
  pub new_pool : List Step → Text → Result Text (Unit {0})
  pub get : List Step → Result Text (Unit {0})
  pub simple_query : List Step → Result Text (Unit {0})
  pub batch_execute : List Step → Result Text (Unit {0})

-- the pool for this URL
pub record Database : Type 0 where
  pub url : Text

-- an operation on a connection of the pool
on_connection :
    (List Step → Result Text (Unit {0}))
    → (List Step → Result Text (Unit {0}))
    → List Step
    → Result DatabaseError (Unit {0})
on_connection get run steps =
    and_then (map_err pool (get steps)) (λ connection. map_err query (run steps))

module _ (api : PoolApi) where
  unfoldable pub check_connection_of : Database → Starting (Unit {0})
  unfolding on_connection
  check_connection_of d =
      ask check_connection
        (λ steps. map_err database (on_connection api.get api.simple_query steps))

  unfoldable pub migrate_of : Database → Starting (Unit {0})
  unfolding on_connection
  migrate_of d =
      ask migrate (λ steps. map_err database (on_connection api.get api.batch_execute steps))

  -- `new_pool` is told the URL that the configuration is read from.
  unfoldable pub connect_from_env : (Text → Option Text) → Starting Database
  connect_from_env env = do
    url ← lift (ok_or (env database_url_env) (database missing_environment))
    if is_empty (trim url)
        then fail (database empty_url)
        else if not (api.is_config url)
        then fail (database invalid_postgres_config)
        else (do
          ask (open_pool url) (λ steps. map_err database (map_err pool (api.new_pool steps url)))
          check_connection_of (record { url = url })
          migrate_of (record { url = url })
          pure (record { url = url }))
