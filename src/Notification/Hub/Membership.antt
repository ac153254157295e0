-- ===== src/Notification/Hub/Membership.antt =====
-- Who is in which channel after a subscription and after its end.
use rest_trans.Prelude.{
  ℕ, ◌+◌, ◌<◌, ◌≡◌, refl, ap, ◌∙◌, Bool, true, false, ◌&&◌, ◌||◌, not, Option, none, some, List, [],
  ◌∷◌, Text, text_eq, ◌==◌, arith, if◌then◌else◌, Bool-cases, inl, inr, All, subst,
}
use rest_trans.Prelude.Strings.Lengths.{text_eq_iff}
use rest_trans.Schema.{find, store}
use rest_trans.Schema.Lookup.{find-store_same, find-store_other}
use rest_trans.Notification.Hub.{
  State, members, or_none, without, without_channel, put_back, leave, subscribe, unsubscribe,
}
use rest_trans.Notification.Hub.Broadcast.{listed, AreDistinct, members-unsubscribe, listed-without}

-- A subscription adds its client to one channel.
pub members-subscribe :
    (channel key : Text) (s : State)
    → members key (subscribe channel s).1
      ≡ (if text_eq channel key then s.next ∷ members channel s else members key s)
unfolding members subscribe
members-subscribe channel key s =
    let ns = s.next ∷ members channel s in
    elim (Bool-cases (text_eq channel key)) [
      | inl e ↦ rw e (
          ap or_none (
            subst (λ k. find k (store channel ns s.clients) ≡ some ns)
              ((text_eq_iff channel key).0 e) (find-store_same channel ns s.clients)))
      | inr e ↦ rw e (ap or_none (find-store_other channel key ns s.clients e))
    ]

pub find-without_other :
    (k key : Text) (m : List (Text × List ℕ))
    → text_eq k key ≡ false
    → find key (without_channel k m) ≡ find key m
unfolding find without_channel
find-without_other k key [] h = refl
find-without_other k key ((j, ns) ∷ m) h = elim (Bool-cases (text_eq j k)) [
  | inl e ↦
      let other : text_eq j key ≡ false = rw ((text_eq_iff j k).0 e) h in
      rw (e, without_channel, other) (find-without_other k key m h)
  | inr e ↦
      rw (e, without_channel, find)
        (ap (λ r. if text_eq j key then some ns else r) (find-without_other k key m h))
]

pub put_back-other :
    (k key : Text) (ns : List ℕ) (m : List (Text × List ℕ))
    → text_eq k key ≡ false
    → find key (put_back k ns m) ≡ find key m
put_back-other k key [] m h = find-without_other k key m h
put_back-other k key (n ∷ ns) m h = find-store_other k key (n ∷ ns) m h

pub leave-other :
    (k key : Text) (n : ℕ) (o : Option (List ℕ)) (m : List (Text × List ℕ))
    → text_eq k key ≡ false
    → find key (leave k n o m) ≡ find key m
leave-other k key n none m h = refl
leave-other k key n (some ns) m h = put_back-other k key (without n ns) m h

pub without-other :
    (channel key : Text) (n : ℕ) (s : State)
    → members key (unsubscribe channel n s)
      ≡ (if text_eq channel key then without n (members channel s) else members key s)
unfolding members unsubscribe
without-other channel key n s = elim (Bool-cases (text_eq channel key)) [
  | inl e ↦ rw e (
      subst (λ k. members k (unsubscribe channel n s) ≡ without n (members channel s))
        ((text_eq_iff channel key).0 e) (members-unsubscribe channel n s))
  | inr e ↦ rw e (ap or_none (leave-other channel key n (find channel s.clients) s.clients e))
]

pub without-AreDistinct : (n : ℕ) (ns : List ℕ) → AreDistinct ns → AreDistinct (without n ns)
unfolding without
without-AreDistinct n [] d = d
without-AreDistinct n (m ∷ ns) (h, d) = elim (Bool-cases (m == n)) [
  | inl e ↦ rw (e, without) (without-AreDistinct n ns d)
  | inr e ↦ rw (e, without) (listed-without m n ns ∙ rw h refl, without-AreDistinct n ns d)
]

pub All-without : (P : ℕ → Type 0) (n : ℕ) (ns : List ℕ) → All P ns → All P (without n ns)
unfolding without
All-without P n [] h = h
All-without P n (m ∷ ns) (h, hs) = elim (Bool-cases (m == n)) [
  | inl e ↦ rw (e, without) (All-without P n ns hs)
  | inr e ↦ rw (e, without) (h, All-without P n ns hs)
]

-- A number that is not used yet is in no list.
pub fresh : (n : ℕ) (ns : List ℕ) → All (λ m. m < n) ns → listed n ns ≡ false
fresh n [] h = refl
fresh n (m ∷ ns) (h, hs) = ground (arith, fresh n ns hs)

pub All-suc : (n : ℕ) (ns : List ℕ) → All (λ m. m < n) ns → All (λ m. m < n + 1) ns
All-suc n [] h = h
All-suc n (m ∷ ns) (h, hs) = (omega arith, All-suc n ns hs)

pub not_listed : (n : ℕ) (ns : List ℕ) → All (λ m. m < n) ns → listed n ns ≡ true → ⊥
not_listed n ns h l = let no = fresh n ns h in cc

pub and_true : (b : Bool) → b ≡ (b && true)
and_true true = refl
and_true false = refl

pub or_old : (a q b x : Bool) → x ≡ ((a && q) || b) → x ≡ true → q ≡ false → b ≡ true
or_old true q b x e h f = ground arith
or_old false q b x e h f = ground arith

pub or_new : (a q b x : Bool) → x ≡ ((a && q) || b) → x ≡ true → b ≡ false → a ≡ true
or_new true q b x e h f = refl
or_new false q b x e h f = ground arith

pub or_keep : (a q b x : Bool) → x ≡ ((a && q) || b) → b ≡ true → x ≡ true
or_keep true true b x e h = ground arith
or_keep true false b x e h = ground arith
or_keep false q b x e h = ground arith

pub and_old : (a q b x : Bool) → x ≡ (b && not (a && q)) → x ≡ true → b ≡ true
and_old a q true x e h = refl
and_old a q false x e h = ground arith

pub and_apart : (a q b x : Bool) → x ≡ (b && not (a && q)) → x ≡ true → q ≡ true → a ≡ false
and_apart true true b x e h k = ground arith
and_apart true false b x e h k = ground arith
and_apart false q b x e h k = refl

pub and_keep : (a q b x : Bool) → x ≡ (b && not (a && q)) → b ≡ true → q ≡ false → x ≡ true
and_keep true q b x e h k = ground arith
and_keep false q b x e h k = ground arith

pub listed-subscribe :
    (channel key : Text) (k : ℕ) (s : State)
    → listed k (members key (subscribe channel s).1)
      ≡ ((text_eq channel key && (s.next == k)) || listed k (members key s))
listed-subscribe channel key k s = elim (Bool-cases (text_eq channel key)) [
  | inl e ↦
      let same : members channel s ≡ members key s =
        ap (λ c. members c s) ((text_eq_iff channel key).0 e) in
      rw (members-subscribe channel key s, e, same) refl
  | inr e ↦ rw (members-subscribe channel key s, e) refl
]

pub listed-unsubscribe :
    (channel key : Text) (n k : ℕ) (s : State)
    → listed k (members key (unsubscribe channel n s))
      ≡ (listed k (members key s) && not (text_eq channel key && (k == n)))
listed-unsubscribe channel key n k s = elim (Bool-cases (text_eq channel key)) [
  | inl e ↦
      let same : members channel s ≡ members key s =
        ap (λ c. members c s) ((text_eq_iff channel key).0 e) in
      rw (without-other channel key n s, e, same) (listed-without k n (members key s))
  | inr e ↦ rw (without-other channel key n s, e) (and_true (listed k (members key s)))
]
