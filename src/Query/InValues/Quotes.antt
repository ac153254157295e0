-- ===== src/Query/InValues/Quotes.antt =====
-- Quotes in the values of an `in` filter.
use mathlib.Core.List.{append-nil, append_assoc}
use rest_trans.Prelude.{
  ℕ, ◌+◌, ◌≤◌, ◌<◌, List, [], ◌∷◌, ◌++◌, map, ◌≡◌, refl, sym, ap, ◌∙◌, true, false, inl, inr,
  Bool-cases, arith, Text, codes, length, length-append, split, trim, trim_space, is_empty,
  contains_byte, ◌==◌, if◌then◌else◌,
}
use rest_trans.Query.InValues.{Reader, read_step, read_all, unread, last_value, parse_in_values}

-- Inside the first quote nothing is cut any more.
read_step-open :
    (r : Reader) (ch : ℕ)
    → 0 < r.depth
    → ((read_step r ch).values ≡ r.values) × (0 < (read_step r ch).depth)
unfolding read_step
read_step-open r ch h = ground arith

read_all-open : (s : Text) (r : Reader) → 0 < r.depth → (read_all r s).values ≡ r.values
unfolding read_all
read_all-open [] r h = refl
read_all-open (ch ∷ s) r h =
    let (same, still) = read_step-open r ch h in read_all-open s (read_step r ch) still ∙ same

last_value-le : (r : Reader) → length (last_value r) ≤ length r.values + 1
last_value-le r = ground (arith, length-append r.values (trim_space r.current ∷ []))

-- Whatever follows, a list of values that begins with a quote is read as one value at most, for
-- the second quote opens the text once more instead of closing it.
pub quoted_values_merge :
    (value s : Text) → trim (codes "()") value ≡ b'"' ∷ s → length (parse_in_values value) ≤ 1
unfolding parse_in_values
quoted_values_merge value s h =
    let r = read_all (record unread { depth = 1 }) s in
    let same = read_all-open s (record unread { depth = 1 }) (omega arith) in
    rw h (omega (arith, last_value-le r, ap length same))

-- The parts at the commas, without an empty one at the end.
abbrev pub without_last_empty : List Text → List Text
without_last_empty [] = []
without_last_empty (t ∷ []) = if is_empty t then [] else t ∷ []
without_last_empty (t ∷ u ∷ ts) = t ∷ without_last_empty (u ∷ ts)

abbrev onto_first : Text → List Text → List Text
onto_first c [] = c ∷ []
onto_first c (t ∷ ts) = (c ++ t) ∷ ts

abbrev values_of : List Text → List Text
values_of parts = map trim_space (without_last_empty parts)

split_ne : (s : Text) → (h : Text) × (ts : List Text) × (split b',' s ≡ h ∷ ts)
unfolding split
split_ne [] = ([], [], refl)
split_ne (ch ∷ s) =
    let (h, ts, e) = split_ne s in
    elim (Bool-cases (ch == b',')) [
      | inl c ↦ ([], split b',' s, rw c)
      | inr c ↦ (ch ∷ h, ts, rw (c, e))
    ]

abbrev at_depth_zero : List Text → Text → Reader
at_depth_zero vs current = record { values = vs; depth = 0; current = current }

last_value-split :
    (vs : List Text) (current : Text)
    → last_value (at_depth_zero vs current) ≡ vs ++ values_of ((current ++ []) ∷ [])
last_value-split vs [] = sym (append-nil vs)
last_value-split vs (x ∷ c) = rw append-nil

read_step-comma :
    (vs : List Text) (current : Text) (ch : ℕ)
    → (ch == b',') ≡ true
    → read_step (at_depth_zero vs current) ch ≡ at_depth_zero (vs ++ trim_space current ∷ []) []
unfolding read_step
read_step-comma vs current ch h = ground arith

read_step-plain :
    (vs : List Text) (current : Text) (ch : ℕ)
    → (ch == b'"') ≡ false
    → (ch == b',') ≡ false
    → read_step (at_depth_zero vs current) ch ≡ at_depth_zero vs (current ++ ch ∷ [])
unfolding read_step
read_step-plain vs current ch h k = ground arith

split-comma : (ch : ℕ) (s : Text) → (ch == b',') ≡ true → split b',' (ch ∷ s) ≡ [] ∷ split b',' s
unfolding split
split-comma ch s h = rw h

split-plain :
    (ch : ℕ) (s h : Text) (ts : List Text)
    → (ch == b',') ≡ false
    → split b',' s ≡ h ∷ ts
    → split b',' (ch ∷ s) ≡ (ch ∷ h) ∷ ts
unfolding split
split-plain ch s h ts c e = rw (c, e)

read_all-split :
    (s : Text) (vs : List Text) (current : Text)
    → contains_byte b'"' s ≡ false
    → last_value (read_all (at_depth_zero vs current) s)
      ≡ vs ++ values_of (onto_first current (split b',' s))
unfolding read_all
read_all-split [] vs current h = unfold split in last_value-split vs current
read_all-split (ch ∷ s) vs current h =
    let (first, rest, e) = split_ne s in
    elim (Bool-cases (ch == b',')) [
      | inl c ↦
          ap (λ r. last_value (read_all r s)) (read_step-comma vs current ch c)
          ∙ read_all-split s (vs ++ trim_space current ∷ []) [] (ground arith)
          ∙ rw (split-comma ch s c, e, append-nil, append_assoc)
      | inr c ↦
          ap (λ r. last_value (read_all r s)) (read_step-plain vs current ch (ground arith) c)
          ∙ read_all-split s vs (current ++ ch ∷ []) (ground arith)
          ∙ rw (split-plain ch s first rest c e, e, append_assoc)
    ]

-- Where the values hold no quote, they are the parts at the commas with the space around each
-- taken off, and an empty part behind the last comma is no value.
parse_in_values_plain :
    (value : Text)
    → contains_byte b'"' (trim (codes "()") value) ≡ false
    → parse_in_values value
      ≡ map trim_space (without_last_empty (split b',' (trim (codes "()") value)))
unfolding parse_in_values
parse_in_values_plain value h =
    let t = trim (codes "()") value in
    let (first, rest, e) = split_ne t in read_all-split t [] [] h ∙ rw e
