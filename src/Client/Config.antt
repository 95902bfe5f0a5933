-- ===== src/Client/Config.antt =====
-- replicant-client/src/database.rs: the stored configuration, a table of one row at most, which says who
-- the client is. Each query may fail.
use replicant.Prelude.{ℕ, Option, none, some, Text, codes}
use replicant.Errors.{row_not_found, database_error}
use replicant.Client.State.{Step, ◌>>=◌, ◌>>◌, give, stop_with, query}

pub record UserConfig : Type 0 where
  pub user_id : ℕ
  pub client_id : ℕ
  pub server_url : Text

-- `Uuid::new_v5` by its namespace and its name, and the namespace of DNS names.
pub record UuidLibrary : Type 0 where
  pub new_v5 : ℕ → Text → ℕ
  pub namespace_dns : ℕ

unfoldable pub generate_deterministic_user_id : UuidLibrary → Text → ℕ
generate_deterministic_user_id lib user_identifier =
    let app_namespace = lib.new_v5 lib.namespace_dns (codes "com.example.sync-task-list") in
    lib.new_v5 app_namespace user_identifier

-- The row that is there, or the new one, whose insertion is one more query.
abbrev pub or_insert : UserConfig → Option UserConfig → Step UserConfig
or_insert new (some config) = give config
or_insert new none = query >> give new

-- The identifiers `user_id` and `client_id` are those that are made up for a new row.
unfoldable pub ensure_user_config : ℕ → ℕ → Text → Option UserConfig → Step UserConfig
unfolding query
ensure_user_config user_id client_id server_url config =
    query
    >> or_insert (record { user_id = user_id; client_id = client_id; server_url = server_url })
        config

unfoldable pub ensure_user_config_with_identifier :
    UuidLibrary → ℕ → Text → Text → Option UserConfig → Step UserConfig
unfolding query generate_deterministic_user_id
ensure_user_config_with_identifier lib client_id server_url user_identifier config =
    query
    >> or_insert
        (record {
          user_id = generate_deterministic_user_id lib user_identifier;
          client_id = client_id;
          server_url = server_url;
        })
        config

abbrev pub fetch_config : Option UserConfig → Step UserConfig
fetch_config none = stop_with (database_error row_not_found)
fetch_config (some config) = give config

unfoldable pub get_user_id : Option UserConfig → Step ℕ
unfolding query
get_user_id config = do query; row ← fetch_config config; give row.user_id

unfoldable pub get_client_id : Option UserConfig → Step ℕ
unfolding query
get_client_id config = do query; row ← fetch_config config; give row.client_id

unfoldable pub get_user_and_client_id : Option UserConfig → Step (ℕ × ℕ)
unfolding query
get_user_and_client_id config = do
  query
  row ← fetch_config config
  give (row.user_id, row.client_id)
