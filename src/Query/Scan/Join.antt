-- ===== src/Query/Scan/Join.antt =====
-- What the scanner cuts, joined by commas, is the text again; and no part can be cut further.
use mathlib.Core.List.{append-nil, append_assoc}
use rest_trans.Prelude.{
  ℕ, zero, suc, ◌≤◌, List, [], ◌∷◌, ◌++◌, ◌≡◌, refl, sym, ap, ◌∙◌, ◌⊎◌, inl, inr, true, arith, Text,
  codes, length, length-append, join, All, All-append, All-map, ==_iff,
}
use rest_trans.Prelude.Int.{ℤ, pos, negsuc}
use rest_trans.Query.Scan.{
  is_zero, Scanner, cut, scan_step, scan, start, finish, split_logical_conditions,
  split_select_parts,
}

abbrev comma : Text
comma = codes ","

join-last :
    (sep : Text) (ps : List Text) (c t : Text)
    → join sep (ps ++ (c ++ t) ∷ []) ≡ join sep (ps ++ c ∷ []) ++ t
unfolding join
join-last sep [] c t = refl
join-last sep (p ∷ []) c t = simp append_assoc
join-last sep (p ∷ q ∷ ps) c t = simp (join-last sep (q ∷ ps) c t, append_assoc)

join_open :
    (sep : Text) (ps : List Text) (c : Text)
    → join sep ((ps ++ c ∷ []) ++ [] ∷ []) ≡ join sep (ps ++ c ∷ []) ++ sep
unfolding join
join_open sep [] c = simp append-nil
join_open sep (p ∷ []) c = simp (append-nil, append_assoc)
join_open sep (p ∷ q ∷ ps) c = simp (join_open sep (q ∷ ps) c, append_assoc)

-- All that the scanner has read.
abbrev joined : Scanner → Text
joined s = join comma (s.parts ++ s.current ∷ [])

joined-scan_step : (s : Scanner) (ch : ℕ) → joined (scan_step s ch) ≡ joined s ++ ch ∷ []
unfolding scan_step
joined-scan_step s ch = ground (
  arith,
  join-last comma s.parts s.current (ch ∷ []),
  join_open comma s.parts s.current,
  ==_iff ch b',',
)

joined-scan : (t : Text) (s : Scanner) → joined (scan s t) ≡ joined s ++ t
unfolding scan
joined-scan [] s = sym (append-nil (joined s))
joined-scan (ch ∷ t) s =
    joined-scan t (scan_step s ch)
    ∙ ap (λ r. r ++ t) (joined-scan_step s ch)
    ∙ append_assoc (joined s) (ch ∷ []) t

join_trailing :
    (sep p : Text) (ps : List Text) → join sep ((p ∷ ps) ++ [] ∷ []) ≡ join sep (p ∷ ps) ++ sep
unfolding join
join_trailing sep p [] = simp append-nil
join_trailing sep p (q ∷ ps) = simp (join_trailing sep q ps, append_assoc)

-- The parts give `v` back, but for a comma at its end.
abbrev pub Rejoins : List Text → Text → Type 0
Rejoins parts v = (join (codes ",") parts ≡ v) ⊎ (join (codes ",") parts ++ codes "," ≡ v)

finish-Rejoins :
    (ps : List Text) (d : ℤ) (c v : Text)
    → join comma (ps ++ c ∷ []) ≡ v
    → Rejoins (finish (record { parts = ps; depth = d; current = c })) v
unfolding join
finish-Rejoins ps d (x ∷ c) v h = inl h
finish-Rejoins [] d [] v h = inl h
finish-Rejoins (p ∷ ps) d [] v h = inr (sym (join_trailing comma p ps) ∙ h)

-- Joined by commas, the parts of a text are that text, or all of it but one last comma, behind
-- which there is no part. So no character is lost, and the order is kept.
pub split_logical_conditions-Rejoins : (v : Text) → Rejoins (split_logical_conditions v) v
unfolding split_logical_conditions
split_logical_conditions-Rejoins v =
    let s = scan start v in
    finish-Rejoins s.parts s.depth s.current v (unfold join in joined-scan v start)

pub split_select_parts-eq : (v : Text) → split_select_parts v ≡ split_logical_conditions v
unfolding split_select_parts split_logical_conditions
split_select_parts-eq v = refl

scan-append : (a b : Text) (s : Scanner) → scan s (a ++ b) ≡ scan (scan s a) b
unfolding scan
scan-append [] b s = refl
scan-append (ch ∷ a) b s = scan-append a b (scan_step s ch)

abbrev resumed : ℤ → Text → Scanner
resumed d c = record { parts = []; depth = d; current = c }

-- The text that a part is scans to itself.
abbrev Stands : Text → ℤ → Type 0
Stands c d = scan start c ≡ resumed d c

abbrev IsSettled : Scanner → Type 0
IsSettled s = All (λ p. Stands p (pos 0)) s.parts × Stands s.current s.depth

zero_depth : (d : ℤ) → is_zero d ≡ true → d ≡ pos 0
zero_depth (pos zero) h = refl
zero_depth (pos (suc n)) h = cc
zero_depth (negsuc n) h = cc

Stands-step :
    (d : ℤ) (c : Text) (ch : ℕ)
    → Stands c d
    → scan start (c ++ ch ∷ []) ≡ scan_step (resumed d c) ch
unfolding scan
Stands-step d c ch k = scan-append c (ch ∷ []) start ∙ ap (λ s. scan s (ch ∷ [])) k

cut-IsSettled : (s : Scanner) → is_zero s.depth ≡ true → IsSettled s → IsSettled (cut s)
unfolding scan
cut-IsSettled s z (h, k) =
    let e = zero_depth s.depth z in
    (
      All-append (λ p. Stands p (pos 0)) s.parts (s.current ∷ []) h ((rw e at k), tt),
      ap (λ d. resumed d []) (sym e),
    )

scan_step-IsSettled : (s : Scanner) (ch : ℕ) → IsSettled s → IsSettled (scan_step s ch)
unfolding scan_step
scan_step-IsSettled s ch (h, k) = ground (
  arith,
  Stands-step s.depth s.current ch k,
  λ (z : is_zero s.depth ≡ true). cut-IsSettled s z (h, k),
)

scan-IsSettled : (t : Text) (s : Scanner) → IsSettled s → IsSettled (scan s t)
unfolding scan
scan-IsSettled [] s h = h
scan-IsSettled (ch ∷ t) s h = scan-IsSettled t (scan_step s ch) (scan_step-IsSettled s ch h)

-- A part that splits into itself alone.
abbrev pub IsWhole : Text → Type 0
IsWhole p = (p ≡ []) ⊎ (split_logical_conditions p ≡ p ∷ [])

Stands-IsWhole : (p : Text) (d : ℤ) → Stands p d → IsWhole p
unfolding split_logical_conditions
Stands-IsWhole [] d h = inl refl
Stands-IsWhole (c ∷ p) d h = inr (ap finish h)

All-IsWhole : (ps : List Text) → All (λ p. Stands p (pos 0)) ps → All IsWhole ps
All-IsWhole = All-map (λ p. Stands p (pos 0)) IsWhole (λ p. Stands-IsWhole p (pos 0))

finish-IsWhole :
    (ps : List Text) (d : ℤ) (c : Text)
    → IsSettled (record { parts = ps; depth = d; current = c })
    → All IsWhole (finish (record { parts = ps; depth = d; current = c }))
finish-IsWhole ps d [] (h, k) = All-IsWhole ps h
finish-IsWhole ps d (x ∷ c) (h, k) =
    All-append IsWhole ps ((x ∷ c) ∷ []) (All-IsWhole ps h) (Stands-IsWhole (x ∷ c) d k, tt)

-- No part of a text has a comma left at which it would be cut: each is empty or its own only part.
split_logical_conditions-IsWhole : (v : Text) → All IsWhole (split_logical_conditions v)
unfolding split_logical_conditions
split_logical_conditions-IsWhole v =
    let s = scan start v in
    finish-IsWhole s.parts s.depth s.current (scan-IsSettled v start (tt, unfold scan in refl))

length-join : (sep : Text) (ps : List Text) → All (λ p. length p ≤ length (join sep ps)) ps
unfolding join
length-join sep [] = tt
length-join sep (p ∷ []) = (omega arith, tt)
length-join sep (p ∷ q ∷ ps) =
    let whole = length-append p (sep ++ join sep (q ∷ ps)) in
    let rest = length-append sep (join sep (q ∷ ps)) in
    (
      omega (arith, whole),
      All-map (λ t. length t ≤ length (join sep (q ∷ ps))) _ (λ t h. omega (arith, whole, rest, h))
          (q ∷ ps) (length-join sep (q ∷ ps)),
    )

Rejoins-length : (ps : List Text) (v : Text) → Rejoins ps v → length (join comma ps) ≤ length v
Rejoins-length ps v (inl e) = rw e (omega arith)
Rejoins-length ps v (inr e) = omega (arith, ap length e, length-append (join comma ps) comma)

-- No part is longer than the text.
pub split-length : (v : Text) → All (λ p. length p ≤ length v) (split_logical_conditions v)
split-length v =
    let parts = split_logical_conditions v in
    let shorter = Rejoins-length parts v (split_logical_conditions-Rejoins v) in
    All-map (λ p. length p ≤ length (join comma parts)) _ (λ p h. omega (arith, h, shorter)) parts
      (length-join comma parts)
