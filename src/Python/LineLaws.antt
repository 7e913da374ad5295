-- ===== src/Python/LineLaws.antt =====
-- The lines of a text and a stripped text are parts of it.
use mathlib.Core.List.{reverse, reverse-append, reverse-reverse}
use matter_thread2mqtt.Prelude.{
  ℕ, Text, List, [], ◌∷◌, ◌++◌, append-nil, append_assoc, Bool, true, false, ◌&&◌, ◌≡◌, refl, sym,
  ap, ◌∙◌, subst, ◌⊎◌, inl, inr, eqb, eqb_list, eqb_list_iff, contains, drop_while, nat_eq, text_eq,
  arith, Bool-cases,
}
use matter_thread2mqtt.Python.{
  Runtime, is_space, strip, onto_first, is_line_break, lines_from, splitlines,
}

-- t is a stretch of s.
pub record IsPart (t s : Text) : Type 0 where
  pub before : Text
  pub after : Text
  pub whole : before ++ (t ++ after) ≡ s

IsPart-refl : (s : Text) → IsPart s s
IsPart-refl s = record { before = []; after = []; whole = append-nil s }

pub IsPart-trans : {t s r : Text} → IsPart t s → IsPart s r → IsPart t r
IsPart-trans {t} {s} {r} h g =
    let inner : h.before ++ (t ++ (h.after ++ g.after)) ≡ s ++ g.after =
      ap (λ (x : Text). h.before ++ x) (sym (append_assoc t h.after g.after))
      ∙ (sym (append_assoc h.before (t ++ h.after) g.after)
          ∙ ap (λ (x : Text). x ++ g.after) h.whole) in
    record {
      before = g.before ++ h.before;
      after = h.after ++ g.after;
      whole =
          append_assoc g.before h.before (t ++ (h.after ++ g.after))
          ∙ (ap (λ (x : Text). g.before ++ x) inner ∙ g.whole);
    }

drop_while-suffix : (p : ℕ → Bool) (s : Text) → (a : Text) × (a ++ drop_while p s ≡ s)
unfolding drop_while
drop_while-suffix p [] = ([], refl)
drop_while-suffix p (c ∷ s) =
    let (a, e) = drop_while-suffix p s in
    elim (Bool-cases (p c)) [
      | inl h ↦ (c ∷ a, rw h (ap (λ (t : Text). c ∷ t) e))
      | inr h ↦ ([], rw h refl)
    ]

pub strip-IsPart : (py : Runtime) (s : Text) → IsPart (strip py s) s
unfolding strip
strip-IsPart py s =
    let (a, e) = drop_while-suffix (is_space py) s in
    let t = drop_while (is_space py) s in
    let (b, f) = drop_while-suffix (is_space py) (reverse t) in
    record {
      before = a;
      after = reverse b;
      whole =
          ap (λ (x : Text). a ++ x)
            (sym (reverse-append b (drop_while (is_space py) (reverse t)))
              ∙ (ap reverse f ∙ reverse-reverse t))
          ∙ e;
    }

-- The first of the lines, if there is one, starts the text.
abbrev Starts : List Text → Text → Type 0
Starts [] s = Unit
Starts (p ∷ ps) s = (b : Text) × (p ++ b ≡ s)

Starts-onto_first :
    (c : ℕ) (s : Text) (ls : List Text) → Starts ls s → Starts (onto_first c ls) (c ∷ s)
Starts-onto_first c s [] h = (s, refl)
Starts-onto_first c s (p ∷ ps) (b, e) = (b, ap (λ (x : Text). c ∷ x) e)

lines_from-Starts : (s : Text) → Starts (lines_from false s) s
unfolding lines_from
lines_from-Starts [] = tt
lines_from-Starts (c ∷ s) = elim (Bool-cases (is_line_break c)) [
  | inl h ↦ rw h (c ∷ s, refl)
  | inr h ↦
      let other : eqb c 13 ≡ false = ground arith in
      rw (h, other) (Starts-onto_first c s (lines_from false s) (lines_from-Starts s))
]

IsPart-cons : {t s : Text} (c : ℕ) → IsPart t s → IsPart t (c ∷ s)
IsPart-cons c h = record {
  before = c ∷ h.before;
  after = h.after;
  whole = ap (λ (x : Text). c ∷ x) h.whole;
}

IsPart-start : (t b : Text) {s : Text} → t ++ b ≡ s → IsPart t s
IsPart-start t b e = record { before = []; after = b; whole = e }

-- A text in a list of one more is that one or in the list.
line_cases :
    (line p : Text) (ps : List Text)
    → contains (p ∷ ps) line ≡ true
    → (line ≡ p) ⊎ (contains ps line ≡ true)
unfolding contains
line_cases line p ps h = elim (Bool-cases (eqb_list line p)) [
  | inl e ↦ inl ((eqb_list_iff line p).0 e)
  | inr n ↦ inr (ground arith)
]

contains-more :
    (line p : Text) (ps : List Text) → contains ps line ≡ true → contains (p ∷ ps) line ≡ true
unfolding contains
contains-more line p ps h = ground arith

onto_first-IsPart :
    (c : ℕ) (s : Text) (ls : List Text) (line : Text)
    → Starts ls s
    → ((contains ls line ≡ true) → IsPart line s)
    → contains (onto_first c ls) line ≡ true
    → IsPart line (c ∷ s)
onto_first-IsPart c s [] line h rest e = elim (line_cases line (c ∷ []) [] e) [
  | inl same ↦ subst (λ (l : Text). IsPart l (c ∷ s)) (sym same) (IsPart-start (c ∷ []) s refl)
  | inr none ↦ absurd (unfold contains in cc)
]
onto_first-IsPart c s (p ∷ ps) line (b, f) rest e = elim (line_cases line (c ∷ p) ps e) [
  | inl same ↦
      subst (λ (l : Text). IsPart l (c ∷ s)) (sym same)
        (IsPart-start (c ∷ p) b (ap (λ (x : Text). c ∷ x) f))
  | inr later ↦ IsPart-cons c (rest (contains-more line p ps later))
]

lines_from-IsPart :
    (s : Text) (after_cr : Bool) (line : Text)
    → contains (lines_from after_cr s) line ≡ true
    → IsPart line s
unfolding lines_from
lines_from-IsPart [] after_cr line h = absurd (unfold contains in cc)
lines_from-IsPart (c ∷ s) after_cr line h = elim (Bool-cases (after_cr && eqb c 10)) [
  | inl skipped ↦ IsPart-cons c (lines_from-IsPart s (eqb c 13) line (ground arith))
  | inr kept ↦ elim (Bool-cases (is_line_break c)) [
    | inl breaks ↦
        let more : contains ([] ∷ lines_from (eqb c 13) s) line ≡ true = ground arith in
        elim (line_cases line [] (lines_from (eqb c 13) s) more) [
          | inl same ↦
              subst (λ (l : Text). IsPart l (c ∷ s)) (sym same) (IsPart-start [] (c ∷ s) refl)
          | inr later ↦ IsPart-cons c (lines_from-IsPart s (eqb c 13) line later)
        ]
    | inr goes_on ↦
        let other : eqb c 13 ≡ false = ground arith in
        let on : contains (onto_first c (lines_from false s)) line ≡ true =
          ap (λ (b : Bool). contains (onto_first c (lines_from b s)) line) (sym other)
          ∙ ground arith in
        onto_first-IsPart c s (lines_from false s) line (lines_from-Starts s)
          (lines_from-IsPart s false line) on
  ]
]

-- Each line of a text is a stretch of it.
pub splitlines-IsPart : (s line : Text) → contains (splitlines s) line ≡ true → IsPart line s
unfolding splitlines
splitlines-IsPart s line h = lines_from-IsPart s false line h
