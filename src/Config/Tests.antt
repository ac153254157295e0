-- ===== src/Config/Tests.antt =====
-- Runs of the configuration.
use rest_trans.Prelude.{◌≡◌, refl, codes, true, false, [], ◌∷◌}
use rest_trans.Prelude.Int.{pos}
use rest_trans.Config.{Config, any_hides, methods_contain, server_addr, cast_value, Setting}

hides_star : any_hides (codes "tmp_*" ∷ codes "secret" ∷ []) (codes "tmp_users") ≡ true
unfolding any_hides
hides_star = refl

hides_no_more : any_hides (codes "tmp_*" ∷ codes "secret" ∷ []) (codes "secrets") ≡ false
unfolding any_hides
hides_no_more = refl

all_methods : methods_contain (codes "All" ∷ []) (codes "DELETE") ≡ true
unfolding methods_contain
all_methods = refl

-- A configuration that gives the tables no permissions of their own.
abbrev pub plain_config : Config
plain_config = record {
  server = record { host = codes "0.0.0.0"; port = pos 3000 };
  database = record {
    host = codes "localhost";
    port = pos 5432;
    user = codes "postgres";
    password = codes "postgres";
    name = codes "app";
    schemas = codes "public" ∷ [];
    ssl_mode = codes "disable";
    pool = record {
      max_open = pos 25;
      max_idle = pos 5;
      conn_max_life = 3600;
      conn_max_idle = 600;
    };
  };
  hot_reload = record { enabled = false; interval = 30; auto_notify_triggers = true };
  permissions = (codes "users", record { methods = codes "get" ∷ codes "patch" ∷ [] }) ∷ [];
  rpc = [];
  transactions = record { enabled = true; ttl = 1800; cleanup_interval = 60 };
  rate_limit = record { enabled = false; rps = codes "10"; burst = pos 20; per_table = [] };
  hidden_tables = [];
}

address : server_addr plain_config ≡ codes "0.0.0.0:3000"
unfolding server_addr
address = refl

port_is_read : cast_value (codes "server.port") (codes "8080") ≡ Setting.number (pos 8080)
unfolding cast_value
port_is_read = refl
