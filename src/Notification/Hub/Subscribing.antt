-- ===== src/Notification/Hub/Subscribing.antt =====
-- What holds of a hub whose clients are closed just where they are in no channel, and that a
-- subscription keeps it so.
use rest_trans.Prelude.{
  ℕ, ◌+◌, ◌<◌, ◌≡◌, refl, ap, ◌∙◌, Bool, true, false, ◌&&◌, ◌||◌, Text, text_eq, ◌==◌, ==_iff, sym,
  arith, Bool-cases, inl, inr, All, if_cases, subst,
}
use rest_trans.Prelude.Strings.Lengths.{text_eq_iff, text_eq_refl}
use rest_trans.Notification.Hub.{Client, State, new_client, set, members, subscribe}
use rest_trans.Notification.Hub.Broadcast.{listed, AreDistinct}
use rest_trans.Notification.Hub.Membership.{
  members-subscribe, fresh, All-suc, or_old, or_new, or_keep, listed-subscribe,
}

-- `n` is in no channel but `channel`.
abbrev pub IsOnlyIn : Text → ℕ → State → Type 0
IsOnlyIn channel n s = (key : Text) → listed n (members key s) ≡ true → text_eq channel key ≡ true

pub record IsSound (s : State) : Type 0 where
  pub distinct : (channel : Text) → AreDistinct (members channel s)
  pub below : (channel : Text) → All (λ n. n < s.next) (members channel s)
  pub single : (n : ℕ) (channel : Text) → listed n (members channel s) ≡ true → IsOnlyIn channel n s
  pub subscribed :
      (n : ℕ)
      → n < s.next
      → (s.client n).closed ≡ false
      → (channel : Text) × (listed n (members channel s) ≡ true)
  pub unclosed :
      (n : ℕ) (channel : Text) → listed n (members channel s) ≡ true → (s.client n).closed ≡ false

pub or_hit : (a q b x : Bool) → x ≡ ((a && q) || b) → a ≡ true → q ≡ true → x ≡ true
or_hit true true b x e h k = e
or_hit true false b x e h k = cc
or_hit false q b x e h k = cc

pub set-other :
    (n k : ℕ) (c : Client) (s : State) → (k == n) ≡ false → set n c s.client k ≡ s.client k
set-other n k c s h = rw h refl

pub set-same : (n k : ℕ) (c : Client) (s : State) → (k == n) ≡ true → set n c s.client k ≡ c
set-same n k c s h = rw h refl

module _ (channel : Text) (s : State) (w : IsSound s) where
  old_member :
      (k : ℕ) (key : Text)
      → listed k (members key (subscribe channel s).1) ≡ true
      → (s.next == k) ≡ false
      → listed k (members key s) ≡ true
  old_member k key l q =
      or_old (text_eq channel key) (s.next == k) (listed k (members key s)) _
        (listed-subscribe channel key k s) l q

  new_member :
      (k : ℕ) (key : Text)
      → listed k (members key (subscribe channel s).1) ≡ true
      → (s.next == k) ≡ true
      → text_eq channel key ≡ true
  new_member k key l q =
      let unused =
        subst (λ m. listed m (members key s) ≡ false) ((==_iff s.next k).0 q)
          (fresh s.next (members key s) (w.below key)) in
      or_new (text_eq channel key) (s.next == k) (listed k (members key s)) _
        (listed-subscribe channel key k s) l unused

  subscribe-single :
      (k : ℕ) (key : Text)
      → listed k (members key (subscribe channel s).1) ≡ true
      → IsOnlyIn key k (subscribe channel s).1
  subscribe-single k key l key' l' = elim (Bool-cases (s.next == k)) [
    | inr q ↦ w.single k key (old_member k key l q) key' (old_member k key' l' q)
    | inl q ↦
        let here = (text_eq_iff channel key).0 (new_member k key l q) in
        let there = (text_eq_iff channel key').0 (new_member k key' l' q) in
        (text_eq_iff key key').1 (sym here ∙ there)
  ]

  subscribe-subscribed :
      (k : ℕ)
      → k < s.next + 1
      → (set s.next new_client s.client k).closed ≡ false
      → (key : Text) × (listed k (members key (subscribe channel s).1) ≡ true)
  subscribe-subscribed k h c = elim (Bool-cases (k == s.next)) [
    | inl q ↦
        let q' : (s.next == k) ≡ true = ground arith in
        (
          channel,
          or_hit (text_eq channel channel) (s.next == k) (listed k (members channel s)) _
              (listed-subscribe channel channel k s) (text_eq_refl channel) q',
        )
    | inr q ↦
        let lt : k < s.next = ground arith in
        let unshut : (s.client k).closed ≡ false =
          sym (ap (λ c. c.closed) (set-other s.next k new_client s q)) ∙ c in
        let (key, l) = w.subscribed k lt unshut in
        (
          key,
          or_keep (text_eq channel key) (s.next == k) (listed k (members key s)) _
              (listed-subscribe channel key k s) l,
        )
  ]

  subscribe-unclosed :
      (k : ℕ) (key : Text)
      → listed k (members key (subscribe channel s).1) ≡ true
      → (set s.next new_client s.client k).closed ≡ false
  subscribe-unclosed k key l = elim (Bool-cases (k == s.next)) [
    | inl q ↦ ap (λ c. c.closed) (set-same s.next k new_client s q)
    | inr q ↦
        let q' : (s.next == k) ≡ false = ground arith in
        ap (λ c. c.closed) (set-other s.next k new_client s q)
        ∙ w.unclosed k key (old_member k key l q')
  ]

pub subscribe-IsSound : (channel : Text) (s : State) → IsSound s → IsSound (subscribe channel s).1
unfolding subscribe
subscribe-IsSound channel s w = record {
  distinct = λ key. rw (members-subscribe channel key s) (
      if_cases AreDistinct (text_eq channel key) _ _
        (fresh s.next (members channel s) (w.below channel), w.distinct channel) (w.distinct key));
  below = λ key. rw (members-subscribe channel key s) (
      if_cases (All (λ n. n < s.next + 1)) (text_eq channel key) _ _
        (omega arith, All-suc s.next (members channel s) (w.below channel))
        (All-suc s.next (members key s) (w.below key)));
  single = subscribe-single channel s w;
  subscribed = subscribe-subscribed channel s w;
  unclosed = subscribe-unclosed channel s w;
}
