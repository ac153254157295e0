-- ===== src/Notification/Hub/Leaving.antt =====
-- The end of a subscription and a broadcast keep the hub sound.
use rest_trans.Prelude.{
  ℕ, ◌<◌, ◌≡◌, refl, ap, ◌∙◌, Bool, true, false, List, [], ◌∷◌, Text, text_eq, ◌==◌, ==_iff, sym,
  All-map, Bool-cases, inl, inr, All, if_cases, subst,
}
use rest_trans.Notification.Hub.{
  Event, Client, State, set, close, members, unsubscribe, takes, hand, send, send_all,
}
use rest_trans.Notification.Hub.Broadcast.{listed, AreDistinct}
use rest_trans.Notification.Hub.Membership.{
  without-other, without-AreDistinct, All-without, and_old, and_apart, and_keep, listed-unsubscribe,
}
use rest_trans.Notification.Hub.Subscribing.{IsOnlyIn, IsSound, set-other, set-same}

module _ (channel : Text) (n : ℕ) (s : State) (only : IsOnlyIn channel n s) (w : IsSound s) where
  still_member :
      (k : ℕ) (key : Text)
      → listed k (members key (unsubscribe channel n s)) ≡ true
      → listed k (members key s) ≡ true
  still_member k key l =
      and_old (text_eq channel key) (k == n) (listed k (members key s)) _
        (listed-unsubscribe channel key n k s) l

  unsubscribe-subscribed :
      (k : ℕ)
      → k < s.next
      → (set n (close (s.client n)) s.client k).closed ≡ false
      → (key : Text) × (listed k (members key (unsubscribe channel n s)) ≡ true)
  unsubscribe-subscribed k h c = elim (Bool-cases (k == n)) [
    | inl q ↦
        let shut = ap (λ c. c.closed) (set-same n k (close (s.client n)) s q) in
        let no : true ≡ false = sym shut ∙ c in cc
    | inr q ↦
        let unshut : (s.client k).closed ≡ false =
          sym (ap (λ c. c.closed) (set-other n k (close (s.client n)) s q)) ∙ c in
        let (key, l) = w.subscribed k h unshut in
        (
          key,
          and_keep (text_eq channel key) (k == n) (listed k (members key s)) _
              (listed-unsubscribe channel key n k s) l q,
        )
  ]

  unsubscribe-unclosed :
      (k : ℕ) (key : Text)
      → listed k (members key (unsubscribe channel n s)) ≡ true
      → (set n (close (s.client n)) s.client k).closed ≡ false
  unsubscribe-unclosed k key l = elim (Bool-cases (k == n)) [
    | inl q ↦
        let apart =
          and_apart (text_eq channel key) (k == n) (listed k (members key s)) _
            (listed-unsubscribe channel key n k s) l q in
        let here = only key (
          subst (λ m. listed m (members key s) ≡ true) ((==_iff k n).0 q) (still_member k key l)) in
        let no : true ≡ false = sym here ∙ apart in cc
    | inr q ↦
        ap (λ c. c.closed) (set-other n k (close (s.client n)) s q)
        ∙ w.unclosed k key (still_member k key l)
  ]

pub unsubscribe-IsSound :
    (channel : Text) (n : ℕ) (s : State)
    → IsOnlyIn channel n s
    → IsSound s
    → IsSound (unsubscribe channel n s)
unfolding unsubscribe
unsubscribe-IsSound channel n s only w = record {
  distinct = λ key. rw (without-other channel key n s) (
      if_cases AreDistinct (text_eq channel key) _ _
        (without-AreDistinct n (members channel s) (w.distinct channel)) (w.distinct key));
  below = λ key. rw (without-other channel key n s) (
      if_cases (All (λ m. m < s.next)) (text_eq channel key) _ _
        (All-without (λ m. m < s.next) n (members channel s) (w.below channel)) (w.below key));
  single = λ k key l key' l'.
      w.single k key (still_member channel n s only w k key l) key'
        (still_member channel n s only w k key' l');
  subscribed = unsubscribe-subscribed channel n s only w;
  unclosed = unsubscribe-unclosed channel n s only w;
}

-- What waits for a client may change.
pub quiet-closed :
    (n k : ℕ) (c : Client) (s : State)
    → c.closed ≡ (s.client n).closed
    → (set n c s.client k).closed ≡ (s.client k).closed
quiet-closed n k c s h = elim (Bool-cases (k == n)) [
  | inl q ↦
      ap (λ c. c.closed) (set-same n k c s q)
      ∙ h
      ∙ ap (λ m. (s.client m).closed) (sym ((==_iff k n).0 q))
  | inr q ↦ ap (λ c. c.closed) (set-other n k c s q)
]

pub quiet-IsSound :
    (n : ℕ) (c : Client) (s : State)
    → c.closed ≡ (s.client n).closed
    → IsSound s
    → IsSound (record s { client = set n c s.client })
unfolding members
quiet-IsSound n c s h w = record {
  distinct = w.distinct;
  below = w.below;
  single = w.single;
  subscribed = λ k lt unshut. w.subscribed k lt (sym (quiet-closed n k c s h) ∙ unshut);
  unclosed = λ k key l. quiet-closed n k c s h ∙ w.unclosed k key l;
}

pub send-IsSound :
    (quits : ℕ → Bool) (e : Event) (n : ℕ) (s : State)
    → IsOnlyIn e.channel n s
    → IsSound s
    → IsSound (send quits e n s)
unfolding send
send-IsSound quits e n s only w = elim (Bool-cases (takes (quits n) (s.client n))) [
  | inl t ↦ rw (t, send) (quiet-IsSound n (hand e (s.client n)) s refl w)
  | inr t ↦ rw (t, send) (unsubscribe-IsSound e.channel n s only w)
]

pub send-shrinks :
    (quits : ℕ → Bool) (e : Event) (n k : ℕ) (s : State) (key : Text)
    → listed k (members key (send quits e n s)) ≡ true
    → listed k (members key s) ≡ true
unfolding send members
send-shrinks quits e n k s key l = elim (Bool-cases (takes (quits n) (s.client n))) [
  | inl t ↦ rw (t, send) at l
  | inr t ↦
      and_old (text_eq e.channel key) (k == n) (listed k (members key s)) _
        (listed-unsubscribe e.channel key n k s) (rw (t, send) at l)
]

pub send_all-IsSound :
    (quits : ℕ → Bool) (e : Event) (ns : List ℕ) (s : State)
    → All (λ n. IsOnlyIn e.channel n s) ns
    → IsSound s
    → IsSound (send_all quits e ns s)
unfolding send_all
send_all-IsSound quits e [] s only w = w
send_all-IsSound quits e (n ∷ ns) s (only, rest) w =
    send_all-IsSound quits e ns (send quits e n s)
      (All-map (λ m. IsOnlyIn e.channel m s) (λ m. IsOnlyIn e.channel m (send quits e n s))
        (λ m o key l. o key (send-shrinks quits e n m s key l)) ns rest)
      (send-IsSound quits e n s only w)
