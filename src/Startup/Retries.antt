-- ===== src/Startup/Retries.antt =====
-- The retries end, and a database that answers within the attempts is reached.
use rest_trans.Prelude.{
  ℕ, zero, suc, ◌+◌, ◌≤◌, ◌<◌, ◌≡◌, refl, Bool, true, ◌&&◌, Bool-cases, inl, inr, arith, ltb,
  if◌then◌else◌,
}
use rest_trans.Startup.{retry_from, retry_ping_db}

module _ (ping : ℕ → Bool) (paused : Bool) where
  retry_from-le : (left i pauses : ℕ) → (retry_from ping paused left i pauses).pings ≤ i + left
  unfolding retry_from
  retry_from-le zero i pauses = omega arith
  retry_from-le (suc left) i pauses = elim (Bool-cases (ping i)) [
    | inl now ↦ rw now (omega arith)
    | inr later ↦
        let rest =
          retry_from-le left (i + 1) (if paused && ltb 0 left then pauses + 1 else pauses) in
        rw later (omega arith)
  ]

  retry_from-reached :
      (left i pauses k : ℕ)
      → k < left
      → ping (i + k) ≡ true
      → ((retry_from ping paused left i pauses).reached ≡ true)
        × ((retry_from ping paused left i pauses).pings ≤ i + k + 1)
  unfolding retry_from
  retry_from-reached zero i pauses k h e = absurd (omega arith)
  retry_from-reached (suc left) i pauses zero h e =
      let same : i + 0 ≡ i = omega arith in
      let now : ping i ≡ true = rw same at e in rw now (refl, omega arith)
  retry_from-reached (suc left) i pauses (suc k) h e = elim (Bool-cases (ping i)) [
    | inl now ↦ rw now (refl, omega arith)
    | inr later ↦
        let same : i + suc k ≡ i + 1 + k = omega arith in
        let (reached, bound) =
          retry_from-reached left (i + 1) (if paused && ltb 0 left then pauses + 1 else pauses) k
            (omega arith) (rw same at e) in
        rw later (reached, omega arith)
  ]

-- A database that answers a ping within the attempts is reached, by the first answer at the latest,
-- and the number of pings is never above that of the attempts.
pub retry_ping_db-reached :
    (ping : ℕ → Bool) (attempts : ℕ) (paused : Bool) (k : ℕ)
    → k < attempts
    → ping k ≡ true
    → ((retry_ping_db ping attempts paused).reached ≡ true)
      × ((retry_ping_db ping attempts paused).pings ≤ k + 1)
      × ((retry_ping_db ping attempts paused).pings ≤ attempts)
unfolding retry_ping_db
retry_ping_db-reached ping attempts paused k h e =
    let same : 0 + k ≡ k = omega arith in
    let (reached, bound) = retry_from-reached ping paused attempts 0 0 k h (rw same e) in
    (reached, omega arith, omega (arith, retry_from-le ping paused attempts 0 0))
