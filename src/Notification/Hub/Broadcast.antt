-- ===== src/Notification/Hub/Broadcast.antt =====
-- What a broadcast does to every client, and who is subscribed after it.
use rest_trans.Prelude.{
  ltb, length, ◌++◌, ℕ, ◌≡◌, refl, sym, ap, ◌∙◌, Bool, true, false, ◌&&◌, ◌||◌, not, none, List, [],
  ◌∷◌, Text, text_eq, ◌==◌, ==_iff, arith, if◌then◌else◌, Bool-cases, Option-cases, inl, inr,
}
use rest_trans.Schema.{find}
use rest_trans.Schema.Lookup.{find-store_same}
use rest_trans.Notification.Hub.{
  Event, Client, State, members, or_none, without, without_channel, put_back, unsubscribe, takes,
  send, send_all, broadcast,
}

abbrev pub listed : ℕ → List ℕ → Bool
listed n [] = false
listed n (m ∷ ms) = m == n || listed n ms

abbrev pub AreDistinct : List ℕ → Type 0
AreDistinct [] = Unit
AreDistinct (n ∷ ns) = (listed n ns ≡ false) × AreDistinct ns

-- There is room for one event more in 64, and the client is not passed over as closed.
abbrev pub is_served : Bool → Client → Bool
is_served quits c = ltb (length c.waiting) 64 && not (c.closed && quits)

-- A client behind a broadcast to it: the event is the last that waits, or it is closed.
abbrev pub received : Bool → Event → Client → Client
received quits e c =
    if is_served quits c
    then record c { waiting = c.waiting ++ e ∷ [] }
    else record c { closed = true }

send-client :
    (quits : ℕ → Bool) (e : Event) (n : ℕ) (s : State) (k : ℕ)
    → (send quits e n s).client k
      ≡ (if k == n then received (quits n) e (s.client n) else s.client k)
unfolding send unsubscribe
send-client quits e n s k = elim (Bool-cases (takes (quits n) (s.client n))) [
  | inl t ↦ rw (t, send) refl
  | inr t ↦ rw (t, send) refl
]

send_all-client :
    (quits : ℕ → Bool) (e : Event) (ns : List ℕ) (s : State) (k : ℕ)
    → AreDistinct ns
    → (send_all quits e ns s).client k
      ≡ (if listed k ns then received (quits k) e (s.client k) else s.client k)
unfolding send_all
send_all-client quits e [] s k d = refl
send_all-client quits e (n ∷ ns) s k (h, d) =
    let rest = send_all-client quits e ns (send quits e n s) k d in
    let here = send-client quits e n s k in
    elim (Bool-cases (k == n)) [
      | inl p ↦
          let same : k ≡ n = (==_iff k n).0 p in
          let absent : listed k ns ≡ false = rw same h in
          let eq : (n == k) ≡ true = ground arith in
          rest ∙ rw (absent, eq) (here ∙ rw (p, same) refl)
      | inr p ↦
          let ne : (n == k) ≡ false = ground arith in
          let kept : (send quits e n s).client k ≡ s.client k = here ∙ rw p refl in
          rest ∙ rw (kept, ne) refl
    ]

-- A broadcast hands the event to each subscriber of its channel that has room for it, behind what
-- waits there, and closes each that has none (or, at the choice of `select`, one that is closed
-- already); every other client is left as it is.
pub broadcast-client :
    (quits : ℕ → Bool) (e : Event) (s : State) (k : ℕ)
    → AreDistinct (members e.channel s)
    → (broadcast quits e s).client k
      ≡ (if listed k (members e.channel s) then received (quits k) e (s.client k) else s.client k)
unfolding broadcast
broadcast-client quits e s k d = send_all-client quits e (members e.channel s) s k d

find-without_channel : (k : Text) (m : List (Text × List ℕ)) → find k (without_channel k m) ≡ none
unfolding find without_channel
find-without_channel k [] = refl
find-without_channel k ((j, ns) ∷ m) = elim (Bool-cases (text_eq j k)) [
  | inl e ↦ rw (e, without_channel) (find-without_channel k m)
  | inr e ↦ rw (e, without_channel, e, find) (find-without_channel k m)
]

members-put_back :
    (k : Text) (ns : List ℕ) (m : List (Text × List ℕ)) → or_none (find k (put_back k ns m)) ≡ ns
members-put_back k [] m = rw (find-without_channel k m) refl
members-put_back k (n ∷ ns) m = rw (find-store_same k (n ∷ ns) m) refl

pub members-unsubscribe :
    (k : Text) (n : ℕ) (s : State) → members k (unsubscribe k n s) ≡ without n (members k s)
unfolding members unsubscribe without
members-unsubscribe k n s = elim (Option-cases (find k s.clients)) [
  | inl e ↦ rw (e, e) refl
  | inr (ns, e) ↦ rw e (members-put_back k (without n ns) s.clients)
]

pub listed-without :
    (k n : ℕ) (ns : List ℕ) → listed k (without n ns) ≡ (listed k ns && not (k == n))
unfolding without
listed-without k n [] = refl
listed-without k n (m ∷ ns) = ground (arith, listed-without k n ns)

kept : (a b : Bool) → a ≡ (a && (not b || true))
kept true true = refl
kept true false = refl
kept false b = refl

left : (a b : Bool) → (a && not b) ≡ (a && (not b || false))
left true true = refl
left true false = refl
left false b = refl

send-members :
    (quits : ℕ → Bool) (e : Event) (n : ℕ) (s : State) (k : ℕ)
    → listed k (members e.channel (send quits e n s))
      ≡ (listed k (members e.channel s) && (not (k == n) || takes (quits n) (s.client n)))
unfolding send members
send-members quits e n s k = elim (Bool-cases (takes (quits n) (s.client n))) [
  | inl t ↦ rw (t, send) (kept (listed k (members e.channel s)) (k == n))
  | inr t ↦
      rw (t, send)
        (ap (listed k) (members-unsubscribe e.channel n s)
          ∙ listed-without k n (members e.channel s)
          ∙ left (listed k (members e.channel s)) (k == n))
]

hit : (a b : Bool) → (a && (not true || b)) ≡ (a && b)
hit true b = refl
hit false b = refl

kept_not : (a t : Bool) → (a && (not false || t)) ≡ a
kept_not true t = refl
kept_not false t = refl

both : (a t : Bool) → (a && (not a || t)) ≡ (a && t)
both true t = refl
both false t = refl

send_all-members :
    (quits : ℕ → Bool) (e : Event) (ns : List ℕ) (s : State) (k : ℕ)
    → AreDistinct ns
    → listed k (members e.channel (send_all quits e ns s))
      ≡ (listed k (members e.channel s) && (not (listed k ns) || takes (quits k) (s.client k)))
unfolding send_all
send_all-members quits e [] s k d =
    sym (kept_not (listed k (members e.channel s)) (takes (quits k) (s.client k)))
send_all-members quits e (n ∷ ns) s k (h, d) =
    let a = listed k (members e.channel s) in
    let rest = send_all-members quits e ns (send quits e n s) k d in
    elim (Bool-cases (k == n)) [
      | inl p ↦
          let same : k ≡ n = (==_iff k n).0 p in
          let absent : listed k ns ≡ false = rw same h in
          let eq : (n == k) ≡ true = ground arith in
          let before = takes (quits k) ((send quits e n s).client k) in
          let here : listed k (members e.channel (send quits e n s))
              ≡ (a && takes (quits k) (s.client k)) =
            send-members quits e n s k
            ∙ rw (p, same) (hit (listed n (members e.channel s)) (takes (quits n) (s.client n))) in
          rest
          ∙ rw (absent, eq)
              (kept_not (listed k (members e.channel (send quits e n s))) before
                ∙ here
                ∙ sym (hit a (takes (quits k) (s.client k))))
      | inr p ↦
          let ne : (n == k) ≡ false = ground arith in
          let cell : (send quits e n s).client k ≡ s.client k =
            send-client quits e n s k ∙ rw p refl in
          let here : listed k (members e.channel (send quits e n s)) ≡ a =
            send-members quits e n s k ∙ rw p (kept_not a (takes (quits n) (s.client n))) in
          rest ∙ rw (cell, ne, here) refl
    ]

-- After a broadcast, the subscribers of its channel are those before it that had room for the event
-- (and were not passed over as closed): no client is lost that was handed it, and none is new.
broadcast-members :
    (quits : ℕ → Bool) (e : Event) (s : State) (k : ℕ)
    → AreDistinct (members e.channel s)
    → listed k (members e.channel (broadcast quits e s))
      ≡ (listed k (members e.channel s) && is_served (quits k) (s.client k))
unfolding broadcast
broadcast-members quits e s k d =
    send_all-members quits e (members e.channel s) s k d
    ∙ both (listed k (members e.channel s)) (takes (quits k) (s.client k))
