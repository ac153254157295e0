-- ===== src/Notification/Channels/Grows.antt =====
-- How the list of channels grows by one more.
use rest_trans.Prelude.{
  ◌≡◌, refl, sym, ◌∙◌, ◌⊎◌, inl, inr, true, false, List, [], ◌∷◌, ◌++◌, Text, text_eq, Bool-cases,
}
use rest_trans.Prelude.Strings.Lengths.{text_eq_iff}
use rest_trans.Notification.Channels.{seen, add_channel}

-- `c` is one of the list.
abbrev pub Has : Text → List Text → Type 0
Has c [] = ⊥
Has c (d ∷ ds) = (c ≡ d) ⊎ Has c ds

abbrev pub AreApart : List Text → Type 0
AreApart [] = Unit {0}
AreApart (c ∷ cs) = (Has c cs → ⊥) × AreApart cs

Has-seen : (c : Text) (cs : List Text) → seen c cs ≡ true → Has c cs
unfolding seen
Has-seen c [] h = cc
Has-seen c (d ∷ cs) h = elim (Bool-cases (text_eq c d)) [
  | inl e ↦ inl ((text_eq_iff c d).0 e)
  | inr e ↦ inr (Has-seen c cs (rw e at h))
]

seen-Has : (c : Text) (cs : List Text) → Has c cs → seen c cs ≡ true
unfolding seen
seen-Has c [] h = absurd h
seen-Has c (d ∷ cs) (inl e) = rw ((text_eq_iff c d).1 e) refl
seen-Has c (d ∷ cs) (inr h) = elim (Bool-cases (text_eq c d)) [
  | inl e ↦ rw e refl
  | inr e ↦ rw e (seen-Has c cs h)
]

Has-append-left : (c : Text) (xs ys : List Text) → Has c xs → Has c (xs ++ ys)
Has-append-left c [] ys h = absurd h
Has-append-left c (x ∷ xs) ys (inl e) = inl e
Has-append-left c (x ∷ xs) ys (inr h) = inr (Has-append-left c xs ys h)

Has-append-last : (c : Text) (xs : List Text) → Has c (xs ++ c ∷ [])
Has-append-last c [] = inl refl
Has-append-last c (x ∷ xs) = inr (Has-append-last c xs)

Has-append-cases : (c d : Text) (xs : List Text) → Has c (xs ++ d ∷ []) → Has c xs ⊎ (c ≡ d)
Has-append-cases c d [] (inl e) = inr e
Has-append-cases c d [] (inr h) = absurd h
Has-append-cases c d (x ∷ xs) (inl e) = inl (inl e)
Has-append-cases c d (x ∷ xs) (inr h) = elim (Has-append-cases c d xs h) [
  | inl k ↦ inl (inr k)
  | inr e ↦ inr e
]

append-AreApart :
    (c : Text) (xs : List Text) → (Has c xs → ⊥) → AreApart xs → AreApart (xs ++ c ∷ [])
append-AreApart c [] new h = ((λ k. k), tt)
append-AreApart c (x ∷ xs) new (apart, h) = (
  λ k. elim (Has-append-cases x c xs k) [ inl k' ↦ apart k' | inr e ↦ new (inl (sym e)) ],
  append-AreApart c xs (λ k. new (inr k)) h,
)

-- From `xs`, the list has grown by channels that `P` holds of, with no one twice.
pub record Grows (P : Text → Type 0) (xs ys : List Text) : Type 0 where
  pub keeps : (c : Text) → Has c xs → Has c ys
  pub added : (c : Text) → Has c ys → Has c xs ⊎ P c
  pub apart : AreApart xs → AreApart ys

pub Grows-refl : (P : Text → Type 0) (xs : List Text) → Grows P xs xs
Grows-refl P xs = record { keeps = λ c h. h; added = λ c h. inl h; apart = λ h. h }

pub Grows-trans :
    (P Q : Text → Type 0) (xs ys zs : List Text)
    → Grows P xs ys
    → Grows Q ys zs
    → Grows (λ c. P c ⊎ Q c) xs zs
Grows-trans P Q xs ys zs g h = record {
  keeps = λ c k. h.keeps c (g.keeps c k);
  added = λ c k. elim (h.added c k) [
    | inl k' ↦ elim (g.added c k') [ inl k'' ↦ inl k'' | inr p ↦ inr (inl p) ]
    | inr q ↦ inr (inr q)
  ];
  apart = λ k. h.apart (g.apart k);
}

pub Grows-weaken :
    (P Q : Text → Type 0) (xs ys : List Text)
    → ((c : Text) → P c → Q c)
    → Grows P xs ys
    → Grows Q xs ys
Grows-weaken P Q xs ys f g = record {
  keeps = g.keeps;
  added = λ c k. elim (g.added c k) [ inl k' ↦ inl k' | inr p ↦ inr (f c p) ];
  apart = g.apart;
}

pub add_channel-Grows : (xs : List Text) (c : Text) → Grows (λ d. d ≡ c) xs (add_channel xs c)
unfolding add_channel
add_channel-Grows xs c = elim (Bool-cases (seen c xs)) [
  | inl e ↦ rw (e, add_channel) (Grows-refl (λ d. d ≡ c) xs)
  | inr e ↦
      rw (e, add_channel)
        (record {
          keeps = λ d h. Has-append-left d xs (c ∷ []) h;
          added = λ d h. Has-append-cases d c xs h;
          apart =
              append-AreApart c xs
                (λ h. let yes = seen-Has c xs h in let lost : true ≡ false = sym yes ∙ e in cc);
        })
]

pub Has-add_channel : (xs : List Text) (c : Text) → Has c (add_channel xs c)
unfolding add_channel
Has-add_channel xs c = elim (Bool-cases (seen c xs)) [
  | inl e ↦ rw (e, add_channel) (Has-seen c xs e)
  | inr e ↦ rw (e, add_channel) (Has-append-last c xs)
]
