-- ===== src/Service/Endpoints/Intercepted.antt =====
-- What becomes of a request on these routes that names a transaction in its header.
use rest_trans.Prelude.{ℕ, ◌≡◌, refl, Bool, true, false, [], is_empty}
use rest_trans.Transaction.Types.{Store, Faults}
use rest_trans.Transaction.Staging.{is_write, middleware}
use rest_trans.Transaction.Staging
use rest_trans.Transaction.Staging.Answers.{IsAnswered, middleware-IsAnswered}
use rest_trans.Transaction.Staging.Appends.{Extends, Extends-refl, middleware-Extends}
use rest_trans.RateLimit.Manager.{LimiterManager}
use rest_trans.RateLimit.Manager
use rest_trans.Router.{Verdict, pass, abort}
use rest_trans.Rpc.{Caller}
use rest_trans.Service.{State, Parts}
use rest_trans.Service.Endpoints.{
  Arrival, Outside, Answered, refused, staged, answered, called, unregistered, is_post,
  staged_method, staging_of, passed_on, routed, allowed, counted, serve_endpoint,
}

-- No handler has answered.
abbrev IsUnserved : Answered → Type 0
IsUnserved (refused reply) = Unit {0}
IsUnserved (staged reply) = Unit {0}
IsUnserved (answered response) = ⊥
IsUnserved (called reply) = ⊥
IsUnserved unregistered = Unit {0}

is_write_posted : (e : Bool) → e ≡ true → is_write (staged_method e) ≡ true
is_write_posted true h = refl
is_write_posted false h = cc

module _ {L S : Type 0} where
  -- No handler has answered, the client's rows and all transactions are what they were, and what
  -- is staged has at most grown by operations of the transaction of the header, where it is
  -- pending.
  pub record Intercepted (a : Arrival) (s : State L S) (x : Answered × State L S) : Type 0 where
    pub unserved : IsUnserved x.0
    pub rows_eq : x.1.rows ≡ s.rows
    pub extends : Extends a.header s.transactions x.1.transactions

module _ {L S : Type 0} (p : Parts L S) (caller : Caller S) where
  passed_on-Intercepted :
      (o : Outside) (a : Arrival) (s : State L S) (x : Staging.Reply × Store)
      → IsAnswered x
      → Extends a.header s.transactions x.1
      → Intercepted a s (passed_on p caller o a s x)
  passed_on-Intercepted o a s (Staging.next, store) h e = absurd h.answer
  passed_on-Intercepted o a s (Staging.failed status code, store) h e = record {
    unserved = tt;
    rows_eq = refl;
    extends = e;
  }
  passed_on-Intercepted o a s (Staging.accepted id, store) h e = record {
    unserved = tt;
    rows_eq = refl;
    extends = e;
  }

  routed-Intercepted :
      (check : Faults) (fs : ℕ → Faults) (o : Outside) (a : Arrival) (s : State L S) (on : Bool)
      → on ≡ true
      → is_post a.endpoint ≡ true
      → is_empty a.header ≡ false
      → Intercepted a s (routed p caller check fs o a s on)
  routed-Intercepted check fs o a s false on w h = cc
  routed-Intercepted check fs o a s true on w h =
      passed_on-Intercepted o a s
        (middleware p.target (fs 0) check fs (staging_of a) s.transactions s.rows)
        (middleware-IsAnswered p.target (fs 0) check fs (staging_of a) s.transactions s.rows h
          (is_write_posted (is_post a.endpoint) w))
        (middleware-Extends p.target (fs 0) check fs (staging_of a) s.transactions s.rows)

  allowed-Intercepted :
      (check : Faults) (fs : ℕ → Faults) (o : Outside) (a : Arrival) (s : State L S) (v : Verdict)
      → p.transactions_on ≡ true
      → is_post a.endpoint ≡ true
      → is_empty a.header ≡ false
      → Intercepted a s (allowed p caller check fs o a s v)
  allowed-Intercepted check fs o a s (abort reply) on w h = record {
    unserved = tt;
    rows_eq = refl;
    extends = Extends-refl a.header s.transactions;
  }
  allowed-Intercepted check fs o a s pass on w h =
      routed-Intercepted check fs o a s p.transactions_on on w h

  counted-Intercepted :
      (check : Faults) (fs : ℕ → Faults) (o : Outside) (a : Arrival) (s : State L S)
      (x : LimiterManager L × Verdict)
      → p.transactions_on ≡ true
      → is_post a.endpoint ≡ true
      → is_empty a.header ≡ false
      → Intercepted a s (counted p caller check fs o a s x)
  counted-Intercepted check fs o a s (limits, abort reply) on w h = record {
    unserved = tt;
    rows_eq = refl;
    extends = Extends-refl a.header s.transactions;
  }
  counted-Intercepted check fs o a s (limits, pass) on w h =
      let i = allowed-Intercepted check fs o a (record s { limits = limits }) _ on w h in
      record { unserved = i.unserved; rows_eq = i.rows_eq; extends = i.extends }

  -- Where transactions are on, a POST on a route of transactions or functions that names a
  -- transaction in its header is never answered by its handler, whatever fails: nothing is begun,
  -- committed, rolled back or called, the rows and the transactions stay as they are, and what is
  -- staged has at most grown by operations of the named transaction, where it is pending.
  pub serve_endpoint-Intercepted :
      (check : Faults) (fs : ℕ → Faults) (o : Outside) (a : Arrival) (s : State L S)
      → p.transactions_on ≡ true
      → is_post a.endpoint ≡ true
      → is_empty a.header ≡ false
      → Intercepted a s (serve_endpoint p caller check fs o a s)
  unfolding serve_endpoint
  serve_endpoint-Intercepted check fs o a s on w h =
      counted-Intercepted check fs o a s (Manager.middleware p.bucket s.limits a.ip [] o.now) on w h
