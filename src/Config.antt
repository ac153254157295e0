-- ===== src/Config.antt =====
-- internal/config/config.go: the configuration and the permissions that it gives.
pub mod Tests
use rest_trans.Prelude.{
  ℕ, Bool, true, false, ◌||◌, Option, none, some, List, [], ◌∷◌, ◌++◌, Text, codes, text_eq,
  is_empty, has_prefix, has_suffix, split, take, length, ◌-◌, if◌then◌else◌,
}
use rest_trans.Prelude.Int.{ℤ, itoa, atoi}
use rest_trans.Schema.{find, store, equal_fold}

-- Durations are in nanoseconds, and a floating-point number is its literal.
pub record HotReloadConfig : Type 0 where
  pub enabled : Bool
  pub interval : ℕ
  pub auto_notify_triggers : Bool

pub record TransactionsConfig : Type 0 where
  pub enabled : Bool
  pub ttl : ℕ
  pub cleanup_interval : ℕ

pub record RateLimitTableConfig : Type 0 where
  pub rps : Text
  pub burst : ℤ

pub record RateLimitConfig : Type 0 where
  pub enabled : Bool
  pub rps : Text
  pub burst : ℤ
  pub per_table : List (Text × RateLimitTableConfig)

pub record ServerConfig : Type 0 where
  pub host : Text
  pub port : ℤ

pub record PoolConfig : Type 0 where
  pub max_open : ℤ
  pub max_idle : ℤ
  pub conn_max_life : ℕ
  pub conn_max_idle : ℕ

pub record DatabaseConfig : Type 0 where
  pub host : Text
  pub port : ℤ
  pub user : Text
  pub password : Text
  pub name : Text
  pub schemas : List Text
  pub ssl_mode : Text
  pub pool : PoolConfig

pub record PermConfig : Type 0 where
  pub methods : List Text

pub record RpcConfig : Type 0 where
  pub enabled : Bool

pub record Config : Type 0 where
  pub server : ServerConfig
  pub database : DatabaseConfig
  pub hot_reload : HotReloadConfig
  pub permissions : List (Text × PermConfig)
  pub rpc : List (Text × RpcConfig)
  pub transactions : TransactionsConfig
  pub rate_limit : RateLimitConfig
  pub hidden_tables : List Text

-- `methodsContain`.
unfoldable pub methods_contain : List Text → Text → Bool
unfolding equal_fold text_eq
methods_contain [] method = false
methods_contain (m ∷ methods) method =
    text_eq m (codes "*")
    || equal_fold m (codes "all")
    || equal_fold m method
    || methods_contain methods method

abbrev pub methods_of : Text → Option PermConfig → Option PermConfig → Bool
methods_of method (some p) other = methods_contain p.methods method
methods_of method none (some p) = methods_contain p.methods method
methods_of method none none = true

-- `Config.IsMethodAllowed`: the table's own permissions, or those of `*`.
unfoldable pub is_method_allowed : Config → Text → Text → Bool
unfolding methods_contain find
is_method_allowed c table method =
    methods_of method (find table c.permissions) (find (codes "*") c.permissions)

abbrev enabled_of : Option RpcConfig → Option RpcConfig → Bool
enabled_of (some r) other = r.enabled
enabled_of none (some r) = r.enabled
enabled_of none none = true

-- `Config.IsRPCEnabled`.
unfoldable pub is_rpc_enabled : Config → Text → Bool
unfolding find
is_rpc_enabled c func = enabled_of (find func c.rpc) (find (codes "*") c.rpc)

-- One pattern of `hidden_tables`; a star is read at the end only.
unfoldable pub pattern_hides : Text → Text → Bool
unfolding has_suffix has_prefix text_eq
pattern_hides pattern table =
    if has_suffix (codes "*") pattern
    then has_prefix (take (length pattern - 1) pattern) table
    else text_eq pattern table

unfoldable pub any_hides : List Text → Text → Bool
unfolding pattern_hides
any_hides [] table = false
any_hides (p ∷ patterns) table = pattern_hides p table || any_hides patterns table

-- `Config.IsTableHidden`.
abbrev pub is_table_hidden : Config → Text → Bool
is_table_hidden c table = any_hides c.hidden_tables table

-- `Config.DSN` and `Config.ServerAddr`.
unfoldable pub dsn : Config → Text
unfolding itoa
dsn c =
    codes "host="
    ++ (c.database.host
        ++ (codes " port="
            ++ (itoa c.database.port
                ++ (codes " user="
                    ++ (c.database.user
                        ++ (codes " password="
                            ++ (c.database.password
                                ++ (codes " dbname="
                                    ++ (c.database.name
                                        ++ (codes " sslmode=" ++ c.database.ssl_mode))))))))))

unfoldable pub server_addr : Config → Text
unfolding itoa
server_addr c = c.server.host ++ (codes ":" ++ itoa c.server.port)

-- What `castValue` makes of a variable of the environment.
pub data Setting : Type 0 where
  number : ℤ → Setting
  words : List Text → Setting
  word : Text → Setting

abbrev word_of : Text → Text → Setting
word_of key val = if has_suffix (codes ".schemas") key then words (split b',' val) else word val

abbrev number_or : Setting → Option ℤ → Setting
number_or other none = other
number_or other (some n) = number n

-- `castValue`.
unfoldable pub cast_value : Text → Text → Setting
unfolding has_suffix split atoi
cast_value key val =
    if has_suffix (codes ".port") key
      || has_suffix (codes ".max_open") key
      || has_suffix (codes ".max_idle") key
    then number_or (word_of key val) (atoi val)
    else word_of key val

-- The variables of bindLegacyEnvVars, each with the key that it sets. Go visits them in any order.
abbrev pub legacy_mapping : List (Text × Text)
legacy_mapping =
    (codes "HOST", codes "server.host")
    ∷ (codes "PORT", codes "server.port")
    ∷ (codes "DB_HOST", codes "database.host")
    ∷ (codes "DB_PORT", codes "database.port")
    ∷ (codes "DB_USER", codes "database.user")
    ∷ (codes "DB_PASS", codes "database.password")
    ∷ (codes "DB_PASSWORD", codes "database.password")
    ∷ (codes "DB_NAME", codes "database.name")
    ∷ (codes "DB_SCHEMAS", codes "database.schemas")
    ∷ (codes "DB_SSLMODE", codes "database.sslmode")
    ∷ (codes "REST_HOST", codes "server.host")
    ∷ (codes "REST_PORT", codes "server.port")
    ∷ (codes "REST_DB_HOST", codes "database.host")
    ∷ (codes "REST_DB_PORT", codes "database.port")
    ∷ (codes "REST_DB_USER", codes "database.user")
    ∷ (codes "REST_DB_PASS", codes "database.password")
    ∷ (codes "REST_DB_PASSWORD", codes "database.password")
    ∷ (codes "REST_DB_NAME", codes "database.name")
    ∷ (codes "REST_DB_SCHEMAS", codes "database.schemas")
    ∷ (codes "REST_DB_SSLMODE", codes "database.sslmode")
    ∷ []

-- The loop of bindLegacyEnvVars over `mapping`: `getenv` is `os.Getenv`, and `v` what viper is set to.
unfoldable pub bind_legacy_env_vars :
    List (Text × Text) → (Text → Text) → List (Text × Setting) → List (Text × Setting)
unfolding cast_value store
bind_legacy_env_vars [] getenv v = v
bind_legacy_env_vars ((env_key, viper_key) ∷ mapping) getenv v =
    let val = getenv env_key in
    bind_legacy_env_vars mapping getenv
      (if is_empty val then v else store viper_key (cast_value viper_key val) v)
