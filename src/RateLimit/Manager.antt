-- ===== src/RateLimit/Manager.antt =====
-- internal/ratelimit/middleware.go: the limiter that a request is counted by.
use rest_trans.Prelude.{
  ℕ, Bool, not, Option, none, some, List, [], ◌∷◌, ◌++◌, Text, codes, is_empty, if◌then◌else◌,
}
use rest_trans.Prelude.Int.{itoa}
use rest_trans.Schema.{find, store}
use rest_trans.Config.{RateLimitConfig, RateLimitTableConfig}
use rest_trans.Response.{Reply, reply_error, reply_status, set_header}
use rest_trans.Router.{Verdict, pass, abort}
use rest_trans.RateLimit.{TokenBucket, Limiter, new_limiter, allow}

pub record LimiterManager (L : Type 0) : Type 0 where
  pub global : Option (Limiter L)
  pub tables : List (Text × Limiter L)
  pub cfg : RateLimitConfig

abbrev too_many : RateLimitConfig → Reply
too_many cfg =
    reply_error
      (set_header (codes "X-RateLimit-Limit") (itoa cfg.burst)
        (set_header (codes "Retry-After") (codes "1") []))
      (record {
        code = codes "PGRST429";
        message = codes "Rate limit exceeded";
        details = codes "Try again in 1 second";
        hint = [];
        status = 429;
      })

abbrev verdict : RateLimitConfig → Bool → Verdict
verdict cfg allowed = if allowed then pass else abort (too_many cfg)

module _ {L : Type 0} where
  unfoldable pub table_limiters : List (Text × RateLimitTableConfig) → List (Text × Limiter L)
  table_limiters [] = []
  table_limiters ((table, tc) ∷ per_table) =
      (table, new_limiter tc.rps tc.burst) ∷ table_limiters per_table

  -- `NewManager`.
  unfoldable pub new_manager : RateLimitConfig → LimiterManager L
  unfolding table_limiters
  new_manager cfg =
      if cfg.enabled
      then record {
        global = some (new_limiter cfg.rps cfg.burst);
        tables = table_limiters cfg.per_table;
        cfg = cfg;
      }
      else record { global = none; tables = []; cfg = cfg }

  -- A request that the limiter of its table counts, or the global one; with no global limiter the
  -- source panics.
  abbrev count_global :
      TokenBucket L → LimiterManager L → Text → ℕ → Option (Limiter L) → LimiterManager L × Verdict
  count_global b m ip now none = (m, abort (reply_status [] 500))
  count_global b m ip now (some l) =
      let (l', allowed) = allow b l ip now in (record m { global = some l' }, verdict m.cfg allowed)

  abbrev count_by :
      TokenBucket L
      → LimiterManager L
      → Text
      → Text
      → ℕ
      → Option (Limiter L)
      → LimiterManager L × Verdict
  count_by b m ip table now none = count_global b m ip now m.global
  count_by b m ip table now (some l) =
      let (l', allowed) = allow b l (ip ++ (codes ":" ++ table)) now in
      (record m { tables = store table l' m.tables }, verdict m.cfg allowed)

  -- `LimiterManager.Middleware`, for a client's address, the table of the route and a time.
  unfoldable pub middleware :
      TokenBucket L → LimiterManager L → Text → Text → ℕ → LimiterManager L × Verdict
  unfolding allow find store set_header itoa
  middleware b m ip table now =
      if not m.cfg.enabled
      then (m, pass)
      else count_by b m ip table now (if is_empty table then none else find table m.tables)
