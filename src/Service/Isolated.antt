-- ===== src/Service/Isolated.antt =====
-- Which requests change the client's rows, and which the tables of the transactions.
use rest_trans.Prelude.{ℕ, ◌≡◌, ◌≢◌, ◌⊎◌, refl, Bool, true, false, some, codes, is_empty, arith}
use rest_trans.Schema.{Table, get_table}
use rest_trans.Transaction.Types.{Store, Faults}
use rest_trans.Transaction.Staging.{middleware, is_write}
use rest_trans.Transaction.Staging
use rest_trans.RateLimit.Manager.{LimiterManager}
use rest_trans.RateLimit.Manager
use rest_trans.Router.{Verdict, pass, abort, method_guard}
use rest_trans.Router.Guard.{method_guard-view}
use rest_trans.Api.Routes
use rest_trans.Transaction.Staging.Answers.{IsAnswered, middleware-IsAnswered, middleware_plain}
use rest_trans.Service.{
  write, method_name, staged_method, Incoming, Outcome, State, Parts, after_staging, after_guard,
  guarded, limited, serve,
}

is_write_staged : (m : Routes.Method) → is_write (staged_method (write m)) ≡ true
is_write_staged Routes.post = refl
is_write_staged Routes.put = refl
is_write_staged Routes.patch = refl
is_write_staged Routes.delete = refl

-- The names of the methods that write are none of those that a view allows.
writes_nothing :
    (m : Routes.Method)
    → (method_name (write m) ≡ codes "GET")
      ⊎ (method_name (write m) ≡ codes "HEAD")
      ⊎ (method_name (write m) ≡ codes "OPTIONS")
    → ⊥
writes_nothing Routes.post h = ground arith
writes_nothing Routes.put h = ground arith
writes_nothing Routes.patch h = ground arith
writes_nothing Routes.delete h = ground arith

module _ {L S : Type 0} (p : Parts L S) where
  -- The rows, or the tables of the transactions, are what they were.
  abbrev pub KeepsRows : State L S → Outcome × State L S → Type 0
  KeepsRows s x = x.1.rows ≡ s.rows

  abbrev pub KeepsTransactions : State L S → Outcome × State L S → Type 0
  KeepsTransactions s x = x.1.transactions ≡ s.transactions

  after_staging-KeepsRows :
      (i : Incoming) (s : State L S) (x : Staging.Reply × Store)
      → IsAnswered x
      → KeepsRows s (after_staging p i s x)
  after_staging-KeepsRows i s (Staging.next, store) h = absurd h.answer
  after_staging-KeepsRows i s (Staging.failed status code, store) h = refl
  after_staging-KeepsRows i s (Staging.accepted id, store) h = refl

  after_guard-KeepsRows :
      (check : Faults) (fs : ℕ → Faults) (i : Incoming) (s : State L S) (on : Bool)
      → on ≡ true
      → is_empty i.staging.header ≡ false
      → is_write (staged_method i.verb) ≡ true
      → KeepsRows s (after_guard p check fs i s on)
  after_guard-KeepsRows check fs i s true on h w = after_staging-KeepsRows i s _ (
      middleware-IsAnswered p.target (fs 0) check fs
        (record i.staging { method = staged_method i.verb }) s.transactions s.rows h w)
  after_guard-KeepsRows check fs i s false on h w = cc

  guarded-KeepsRows :
      (check : Faults) (fs : ℕ → Faults) (i : Incoming) (s : State L S) (v : Verdict)
      → p.transactions_on ≡ true
      → is_empty i.staging.header ≡ false
      → is_write (staged_method i.verb) ≡ true
      → KeepsRows s (guarded p check fs i s v)
  guarded-KeepsRows check fs i s (abort reply) on h w = refl
  guarded-KeepsRows check fs i s pass on h w =
      after_guard-KeepsRows check fs i s p.transactions_on on h w

  limited-KeepsRows :
      (check : Faults) (fs : ℕ → Faults) (i : Incoming) (s : State L S)
      (x : LimiterManager L × Verdict)
      → p.transactions_on ≡ true
      → is_empty i.staging.header ≡ false
      → is_write (staged_method i.verb) ≡ true
      → KeepsRows s (limited p check fs i s x)
  limited-KeepsRows check fs i s (limits, abort reply) on h w = refl
  limited-KeepsRows check fs i s (limits, pass) on h w =
      guarded-KeepsRows check fs i (record s { limits = limits }) _ on h w

  -- Where transactions are on, a write that names one does not touch the client's rows, whatever
  -- fails and whoever answers it.
  pub serve-KeepsRows :
      (check : Faults) (fs : ℕ → Faults) (now : ℕ) (i : Incoming) (s : State L S)
      (m : Routes.Method)
      → p.transactions_on ≡ true
      → i.verb ≡ write m
      → is_empty i.staging.header ≡ false
      → KeepsRows s (serve p check fs now i s)
  unfolding serve
  serve-KeepsRows check fs now i s m on v h =
      limited-KeepsRows check fs i s (Manager.middleware p.bucket s.limits i.ip i.request.table now)
        on h (rw v (is_write_staged m))

  guarded_refused :
      (check : Faults) (fs : ℕ → Faults) (i : Incoming) (s : State L S) (v : Verdict)
      → v ≢ pass
      → KeepsRows s (guarded p check fs i s v) × KeepsTransactions s (guarded p check fs i s v)
  guarded_refused check fs i s (abort reply) h = (refl, refl)
  guarded_refused check fs i s pass h = absurd (h refl)

  limited_view :
      (check : Faults) (fs : ℕ → Faults) (i : Incoming) (s : State L S)
      (x : LimiterManager L × Verdict)
      → method_guard p.schemas p.config i.request.schema i.request.table (method_name i.verb) ≢ pass
      → KeepsRows s (limited p check fs i s x) × KeepsTransactions s (limited p check fs i s x)
  limited_view check fs i s (limits, abort reply) h = (refl, refl)
  limited_view check fs i s (limits, pass) h =
      guarded_refused check fs i (record s { limits = limits }) _ h

  -- A write to a known view changes neither the client's rows nor the tables of the transactions,
  -- whether or not it names a transaction.
  pub serve-view :
      (check : Faults) (fs : ℕ → Faults) (now : ℕ) (i : Incoming) (s : State L S)
      (m : Routes.Method) (t : Table)
      → is_empty i.request.table ≡ false
      → get_table p.schemas i.request.schema i.request.table ≡ some t
      → t.is_view ≡ true
      → i.verb ≡ write m
      → KeepsRows s (serve p check fs now i s) × KeepsTransactions s (serve p check fs now i s)
  unfolding serve
  serve-view check fs now i s m t h found view v =
      limited_view check fs i s (Manager.middleware p.bucket s.limits i.ip i.request.table now)
        (λ e. writes_nothing m (
          method_guard-view p.schemas p.config i.request.schema i.request.table
            (method_name (write m)) t h found view (rw v at e)))

  after_staging-KeepsTransactions :
      (i : Incoming) (s : State L S) (x : Staging.Reply × Store)
      → x.1 ≡ s.transactions
      → KeepsTransactions s (after_staging p i s x)
  after_staging-KeepsTransactions i s (Staging.next, store) h = h
  after_staging-KeepsTransactions i s (Staging.failed status code, store) h = h
  after_staging-KeepsTransactions i s (Staging.accepted id, store) h = h

  after_guard-KeepsTransactions :
      (check : Faults) (fs : ℕ → Faults) (i : Incoming) (s : State L S) (on : Bool)
      → is_empty i.staging.header ≡ true
      → KeepsTransactions s (after_guard p check fs i s on)
  after_guard-KeepsTransactions check fs i s false h = refl
  after_guard-KeepsTransactions check fs i s true h =
      let r = record i.staging { method = staged_method i.verb } in
      after_staging-KeepsTransactions i s
        (middleware p.target (fs 0) check fs r s.transactions s.rows)
        (middleware_plain p.target (fs 0) check fs r s.transactions s.rows h)

  guarded-KeepsTransactions :
      (check : Faults) (fs : ℕ → Faults) (i : Incoming) (s : State L S) (v : Verdict)
      → is_empty i.staging.header ≡ true
      → KeepsTransactions s (guarded p check fs i s v)
  guarded-KeepsTransactions check fs i s (abort reply) h = refl
  guarded-KeepsTransactions check fs i s pass h =
      after_guard-KeepsTransactions check fs i s p.transactions_on h

  limited-KeepsTransactions :
      (check : Faults) (fs : ℕ → Faults) (i : Incoming) (s : State L S)
      (x : LimiterManager L × Verdict)
      → is_empty i.staging.header ≡ true
      → KeepsTransactions s (limited p check fs i s x)
  limited-KeepsTransactions check fs i s (limits, abort reply) h = refl
  limited-KeepsTransactions check fs i s (limits, pass) h =
      guarded-KeepsTransactions check fs i (record s { limits = limits }) _ h

  -- A request that names no transaction leaves the tables of the transactions as they are.
  serve-KeepsTransactions :
      (check : Faults) (fs : ℕ → Faults) (now : ℕ) (i : Incoming) (s : State L S)
      → is_empty i.staging.header ≡ true
      → KeepsTransactions s (serve p check fs now i s)
  unfolding serve
  serve-KeepsTransactions check fs now i s h =
      limited-KeepsTransactions check fs i s
        (Manager.middleware p.bucket s.limits i.ip i.request.table now) h
