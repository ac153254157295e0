-- ===== src/RateLimit/Isolation.antt =====
-- A client's answers depend on its own requests alone.
use rest_trans.Prelude.{
  ℕ, ◌≡◌, refl, sym, subst, ap, ◌∙◌, Bool, false, Option, none, some, List, [], ◌∷◌, Text, text_eq,
  Bool-cases, inl, inr, if◌then◌else◌, arith,
}
use rest_trans.Prelude.Int.{ℤ}
use rest_trans.Prelude.Strings.Lengths.{text_eq_iff}
use rest_trans.Schema.{find, store}
use rest_trans.Schema.Lookup.{find-store_same, find-store_other}
use rest_trans.RateLimit.{
  TokenBucket, KeyLimiter, Limiter, new_limiter, or_fresh, allow, is_idle, drop_idle, cleanup,
}

-- What a limiter goes through: a client's request at a time, or a tick of the clean-up.
pub data Event : Type 0 where
  request : Text → ℕ → Event
  tick : ℕ → Event

-- Every key stands once.
abbrev IsMap : {V : Type 0} → List (Text × V) → Type 0
IsMap [] = Unit {0}
IsMap ((k, v) ∷ m) = (find k m ≡ none) × IsMap m

store-IsMap : {V : Type 0} (k : Text) (v : V) (m : List (Text × V)) → IsMap m → IsMap (store k v m)
unfolding store find
store-IsMap k v [] h = (refl, tt)
store-IsMap k v ((j, w) ∷ m) (n, h) = elim (Bool-cases (text_eq j k)) [
  | inl e ↦ rw e (n, h)
  | inr e ↦
      let other : text_eq k j ≡ false = ground (arith, text_eq_iff j k, text_eq_iff k j) in
      rw e (find-store_other k j v m other ∙ n, store-IsMap k v m h)
]

module _ {L : Type 0} where
  -- A bucket that survives a tick.
  abbrev pub unless_idle : ℕ → Option (KeyLimiter L) → Option (KeyLimiter L)
  unless_idle now none = none
  unless_idle now (some kl) = if is_idle now kl then none else some kl

  find-drop_idle :
      (k : Text) (now : ℕ) (m : List (Text × KeyLimiter L))
      → IsMap m
      → find k (drop_idle now m) ≡ unless_idle now (find k m)
  unfolding find drop_idle
  find-drop_idle k now [] h = refl
  find-drop_idle k now ((j, kl) ∷ m) (n, h) = elim (Bool-cases (text_eq j k)) [
    | inl e ↦
        let here : find k m ≡ none = rw (sym ((text_eq_iff j k).0 e)) n in
        elim (Bool-cases (is_idle now kl)) [
          | inl idle ↦ rw (idle, e, find-drop_idle k now m h, here, idle)
          | inr busy ↦ rw (busy, e, busy)
        ]
    | inr e ↦ elim (Bool-cases (is_idle now kl)) [
      | inl idle ↦ rw (idle, e, find-drop_idle k now m h)
      | inr busy ↦ rw (busy, e, find-drop_idle k now m h)
    ]
  ]

  drop_idle-IsMap : (now : ℕ) (m : List (Text × KeyLimiter L)) → IsMap m → IsMap (drop_idle now m)
  unfolding find drop_idle
  drop_idle-IsMap now [] h = tt
  drop_idle-IsMap now ((j, kl) ∷ m) (n, h) = elim (Bool-cases (is_idle now kl)) [
    | inl idle ↦ rw idle (drop_idle-IsMap now m h)
    | inr busy ↦ rw busy (find-drop_idle j now m h ∙ rw n, drop_idle-IsMap now m h)
  ]

  -- The answers that the requests of the client `k` are given by a limiter that all share.
  unfoldable pub answers : TokenBucket L → Text → Limiter L → List Event → List Bool
  unfolding allow
  answers b k l [] = []
  answers b k l (request j now ∷ es) =
      let (l', allowed) = allow b l j now in
      let rest = answers b k l' es in if text_eq j k then allowed ∷ rest else rest
  answers b k l (tick now ∷ es) = answers b k (cleanup l now) es

  abbrev bucket_of : TokenBucket L → Text → ℤ → Option (KeyLimiter L) → L
  bucket_of b rate burst none = b.fresh rate burst
  bucket_of b rate burst (some kl) = kl.limiter

  -- The answers that one bucket gives which is the client's own: the requests of others do not touch it.
  pub alone : TokenBucket L → Text → ℤ → Text → Option (KeyLimiter L) → List Event → List Bool
  alone b rate burst k own [] = []
  alone b rate burst k own (request j now ∷ es) =
      let (bucket, allowed) = b.take_token (bucket_of b rate burst own) now in
      let rest = alone b rate burst k (some (record { limiter = bucket; last_seen = now })) es in
      let skip = alone b rate burst k own es in if text_eq j k then allowed ∷ rest else skip
  alone b rate burst k own (tick now ∷ es) = alone b rate burst k (unless_idle now own) es

  bucket_same :
      (b : TokenBucket L) (l : Limiter L) (o : Option (KeyLimiter L))
      → or_fresh b l o ≡ bucket_of b l.rate l.burst o
  bucket_same b l none = refl
  bucket_same b l (some kl) = refl

  answers-eq-alone :
      (b : TokenBucket L) (k : Text) (l : Limiter L) (es : List Event)
      → IsMap l.limiters
      → answers b k l es ≡ alone b l.rate l.burst k (find k l.limiters) es
  unfolding answers alone allow
  answers-eq-alone b k l [] h = refl
  answers-eq-alone b k l (tick now ∷ es) h =
      answers-eq-alone b k (cleanup l now) es (drop_idle-IsMap now l.limiters h)
      ∙ rw (find-drop_idle k now l.limiters h)
  answers-eq-alone b k l (request j now ∷ es) h =
      let taken = b.take_token (or_fresh b l (find j l.limiters)) now in
      let kl : KeyLimiter L = record { limiter = taken.0; last_seen = now } in
      let l' = (allow b l j now).0 in
      let next = answers-eq-alone b k l' es (store-IsMap j kl l.limiters h) in
      elim (Bool-cases (text_eq j k)) [
        | inl e ↦
            let same = (text_eq_iff j k).0 e in
            let hit : find k (store j kl l.limiters) ≡ some kl =
              subst (λ i. find i (store j kl l.limiters) ≡ some kl) same
                (find-store_same j kl l.limiters) in
            let own : bucket_of b l.rate l.burst (find k l.limiters)
                ≡ or_fresh b l (find j l.limiters) =
              sym (bucket_same b l (find k l.limiters))
              ∙ ap (λ i. or_fresh b l (find i l.limiters)) (sym same) in
            rw (e, own)
              (ap (λ rest. taken.1 ∷ rest) (next ∙ ap (λ o. alone b l.rate l.burst k o es) hit))
        | inr e ↦
            rw e (
              next ∙ ap (λ o. alone b l.rate l.burst k o es) (find-store_other j k kl l.limiters e))
      ]

  -- Whatever the clients do, and whenever the clean-up runs, a limiter that starts empty answers
  -- each client as a bucket of its own would that sees this client's requests alone, and is
  -- forgotten where a tick finds that its last request is more than ten minutes old.
  pub limiter-refines :
      (b : TokenBucket L) (rate : Text) (burst : ℤ) (k : Text) (es : List Event)
      → answers b k (new_limiter rate burst) es ≡ alone b rate burst k none es
  unfolding find
  limiter-refines b rate burst k es = answers-eq-alone b k (new_limiter rate burst) es tt
