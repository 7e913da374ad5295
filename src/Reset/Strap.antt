-- ===== src/Reset/Strap.antt =====
-- The strapping line of the chip during a reset, and the exit status of the script.
use matter_thread2mqtt.Prelude.{
  leb, ltb, ℕ, zero, suc, ◌≤◌, List, [], ◌∷◌, ◌++◌, Bool, true, false, ◌&&◌, not, Option, none,
  some, ◌≡◌, ◌↔◌, ◌⊎◌, inl, inr, refl, ap, ◌∙◌, arith,
}
use matter_thread2mqtt.Reset.{
  Action, set_dtr, set_rts, open_port, close, Port, opening, attempt, after, Boot, download, booted,
  quiet, outcome, attempt_from, whole, main, taken, calls_made,
}

-- The lines as the driver records them; they reach the chip while the port is open.
pub record Lines : Type 0 where
  pub is_open : Bool
  pub dtr : Bool
  pub rts : Bool

unfoldable pub act : Action → Lines → Lines
act (set_dtr b) l = record l { dtr = b }
act (set_rts b) l = record l { rts = b }
act open_port l = record l { is_open = true }
act close l = record l { is_open = false }
act _ l = l

-- The lines after all actions, and whether the chip was never strapped for download.
unfoldable pub run : List Action → Lines → Lines
unfolding act
run [] l = l
run (a ∷ rest) l = run rest (act a l)

unfoldable pub unstrapped : List Action → Lines → Bool
unfolding act
unstrapped [] l = not (l.is_open && l.dtr)
unstrapped (a ∷ rest) l = not (l.is_open && l.dtr) && unstrapped rest (act a l)

-- An open port with both lines released.
abbrev pub idle : Lines
idle = record { is_open = true; dtr = false; rts = false }

-- The port is opened with the lines released, and every attempt leaves them so.
unstrapped-append :
    (xs ys : List Action) (l : Lines)
    → unstrapped xs l ≡ true
    → unstrapped ys (run xs l) ≡ true
    → unstrapped (xs ++ ys) l ≡ true
unfolding unstrapped run
unstrapped-append [] ys l h k = k
unstrapped-append (a ∷ xs) ys l h k = ground (arith, unstrapped-append xs ys (act a l))

run-append : (xs ys : List Action) (l : Lines) → run (xs ++ ys) l ≡ run ys (run xs l)
unfolding run
run-append [] ys l = refl
run-append (a ∷ xs) ys l = run-append xs ys (act a l)

-- What is done from `l` on never straps the chip, and ends in `k`.
pub record Clean (rest : List Action) (l k : Lines) : Type 0 where
  pub free : unstrapped rest l ≡ true
  pub ends : run rest l ≡ k

Clean-append :
    {xs ys : List Action} {l k j : Lines} → Clean xs l k → Clean ys k j → Clean (xs ++ ys) l j
Clean-append {xs} {ys} {l} h g = record {
  free = unstrapped-append xs ys l h.free (rw h.ends g.free);
  ends = rw (run-append xs ys l, h.ends) g.ends;
}

attempt-Clean : Clean attempt idle idle
unfolding unstrapped run
attempt-Clean = record { free = refl; ends = refl }

-- The calls that take effect in the attempt that an exception ends, if there is one.
unfoldable pub broken_at : Port → ℕ → (left : ℕ) → Option ℕ
unfolding outcome
broken_at port n zero = none
broken_at port n (suc left) =
    let rest = broken_at port (suc n) left in
    elim (outcome port n) [
      | none ↦ some (calls_made port n)
      | some b ↦ elim b [ download ↦ rest | booted ↦ none | quiet ↦ none ]
    ]

-- Broken off between `ser.rts = True` and `ser.rts = False`, the third and the fifth call.
abbrev pub holds_reset : Option ℕ → Bool
holds_reset none = false
holds_reset (some k) = leb 3 k && ltb k 5

-- An open port with DTR released
abbrev open_with : (rts : Bool) → Lines
open_with rts = record { is_open = true; dtr = false; rts = rts }

taken_nil : (k : ℕ) → taken k [] ≡ []
taken_nil zero = refl
taken_nil (suc k) = refl

taken-Clean : (k : ℕ) → Clean (taken k attempt) idle (open_with (holds_reset (some k)))
unfolding unstrapped run
taken-Clean zero = record { free = refl; ends = refl }
taken-Clean (suc zero) = record { free = refl; ends = refl }
taken-Clean (suc (suc zero)) = record { free = refl; ends = refl }
taken-Clean (suc (suc (suc zero))) = record { free = refl; ends = refl }
taken-Clean (suc (suc (suc (suc zero)))) = record { free = refl; ends = refl }
taken-Clean (suc (suc (suc (suc (suc zero))))) = record { free = refl; ends = refl }
taken-Clean (suc (suc (suc (suc (suc (suc zero)))))) = record { free = refl; ends = refl }
taken-Clean (suc (suc (suc (suc (suc (suc (suc k))))))) =
    let released : false ≡ holds_reset (some (suc (suc (suc (suc (suc (suc (suc k)))))))) =
      ground arith in
    record {
      free = ap (λ (xs : List Action). unstrapped xs idle) (taken_nil k);
      ends = ap (λ (xs : List Action). run xs idle) (taken_nil k) ∙ ap open_with released;
    }

after-Clean :
    (rest : List Action × ℕ) (k : ℕ) (v : Option Boot) (b : Option ℕ)
    → Clean rest.0 idle (open_with (holds_reset b))
    → Clean (after rest k v).0 idle (
        open_with (
          holds_reset (elim v [
            | none ↦ some k
            | some v ↦ elim v [ download ↦ b | booted ↦ none | quiet ↦ none ]
          ])))
unfolding after
after-Clean rest k none b h = taken-Clean k
after-Clean rest k (some booted) b h = attempt-Clean
after-Clean rest k (some quiet) b h = attempt-Clean
after-Clean rest k (some download) b h =
    Clean-append attempt-Clean (unfold unstrapped run in record { free = h.free; ends = h.ends })

attempt_from-Clean :
    (port : Port) (n left : ℕ)
    → Clean (attempt_from port n left).0 idle (open_with (holds_reset (broken_at port n left)))
unfolding attempt_from broken_at
attempt_from-Clean port n zero = unfold unstrapped run in record { free = refl; ends = refl }
attempt_from-Clean port n (suc left) =
    after-Clean (attempt_from port (suc n) left) (calls_made port n) (outcome port n)
      (broken_at port (suc n) left) (attempt_from-Clean port (suc n) left)

-- A closed port.
abbrev pub closed : (dtr rts : Bool) → Lines
closed dtr rts = record { is_open = false; dtr = dtr; rts = rts }

opening-Clean : (dtr rts : Bool) → Clean opening (closed dtr rts) idle
unfolding unstrapped run
opening-Clean dtr rts = record { free = refl; ends = refl }

close-Clean : (rts : Bool) → Clean (close ∷ []) (open_with rts) (closed false rts)
unfolding unstrapped run
close-Clean rts = record { free = refl; ends = refl }

whole-Clean :
    (opens : Bool) (body : List Action × ℕ) (dtr rts held : Bool)
    → Clean body.0 idle (open_with held)
    → Clean (whole opens body).0 (closed dtr rts) (closed false (opens && held))
unfolding whole
whole-Clean true body dtr rts held h =
    Clean-append (opening-Clean dtr rts) (Clean-append h (close-Clean held))
whole-Clean false body dtr rts held h = unfold unstrapped run in record { free = refl; ends = refl }

-- Whatever the lines were recorded as before, however many attempts are made, whatever the port delivers
-- and whichever call of it raises: DTR is never asserted while the port is open, so no reset straps
-- the chip for download, and the port ends closed with DTR released. RTS ends released as well, unless
-- an exception broke off an attempt between `ser.rts = True` and `ser.rts = False`: exactly then it
-- stays recorded as asserted.
pub main-Clean :
    (port : Port) (attempts : ℕ) (dtr rts : Bool)
    → Clean
        (main port attempts).0
        (closed dtr rts)
        (closed false (port.opens && holds_reset (broken_at port 1 attempts)))
unfolding main
main-Clean port attempts dtr rts =
    whole-Clean port.opens (attempt_from port 1 attempts) dtr rts
      (holds_reset (broken_at port 1 attempts)) (attempt_from-Clean port 1 attempts)

-- The attempts from `n` on come to one that boots, with nothing but download mode before it.
pub data Boots (port : Port) : ℕ → ℕ → Type 0 where
  now : {n left : ℕ} → outcome port n ≡ some booted → Boots port n (suc left)
  later :
      {n left : ℕ}
      → outcome port n ≡ some download
      → Boots port (suc n) left
      → Boots port n (suc left)

after_zero :
    (rest : List Action × ℕ) (k : ℕ) (v : Option Boot)
    → (after rest k v).1 ≡ 0
    → (v ≡ some booted) ⊎ ((v ≡ some download) × (rest.1 ≡ 0))
unfolding after
after_zero rest k none h = ground arith
after_zero rest k (some booted) h = inl refl
after_zero rest k (some quiet) h = ground arith
after_zero rest k (some download) h = inr (refl, h)

attempt_from-Boots :
    (port : Port) (n left : ℕ) → (attempt_from port n left).1 ≡ 0 → Boots port n left
unfolding attempt_from
attempt_from-Boots port n zero h = ground arith
attempt_from-Boots port n (suc left) h =
    elim (after_zero (attempt_from port (suc n) left) (calls_made port n) (outcome port n) h) [
      | inl e ↦ now e
      | inr (e, k) ↦ later e (attempt_from-Boots port (suc n) left k)
    ]

Boots-attempt_from :
    {port : Port} {n left : ℕ} → Boots port n left → (attempt_from port n left).1 ≡ 0
unfolding attempt_from after
Boots-attempt_from (now h) = rw h refl
Boots-attempt_from (later h b) = rw h (Boots-attempt_from b)

after_status :
    (rest : List Action × ℕ) (k : ℕ) (v : Option Boot) → rest.1 ≤ 1 → (after rest k v).1 ≤ 1
unfolding after
after_status rest k none h = omega arith
after_status rest k (some booted) h = omega arith
after_status rest k (some quiet) h = omega arith
after_status rest k (some download) h = h

attempt_from_status : (port : Port) (n left : ℕ) → (attempt_from port n left).1 ≤ 1
unfolding attempt_from
attempt_from_status port n zero = omega arith
attempt_from_status port n (suc left) =
    after_status (attempt_from port (suc n) left) (calls_made port n) (outcome port n)
      (attempt_from_status port (suc n) left)

whole_status : (opens : Bool) (body : List Action × ℕ) → body.1 ≤ 1 → (whole opens body).1 ≤ 1
unfolding whole
whole_status true body h = h
whole_status false body h = omega arith

main_zero :
    (opens : Bool) (body : List Action × ℕ)
    → ((whole opens body).1 ≡ 0) ↔ ((opens ≡ true) × (body.1 ≡ 0))
unfolding whole
main_zero true body = (λ h. (refl, h), λ h. h.1)
main_zero false body = ground arith

main_iff :
    (port : Port) (attempts : ℕ)
    → ((main port attempts).1 ≡ 0) ↔ ((port.opens ≡ true) × Boots port 1 attempts)
unfolding main
main_iff port attempts =
    let (to, of) = main_zero port.opens (attempt_from port 1 attempts) in
    (
      λ h. let (opened, z) = to h in (opened, attempt_from-Boots port 1 attempts z),
      λ h. of (h.0, Boots-attempt_from h.1),
    )

-- The script exits with 0 exactly if the port opens and one of the attempts sees the app boot after
-- attempts that all ended in download mode. Otherwise it exits with 1, never with the 2 that its
-- documentation promises for a port that does not open.
pub main-status :
    (port : Port) (attempts : ℕ)
    → (((main port attempts).1 ≡ 0) ↔ ((port.opens ≡ true) × Boots port 1 attempts))
      × ((main port attempts).1 ≤ 1)
unfolding main
main-status port attempts = (
  main_iff port attempts,
  whole_status port.opens (attempt_from port 1 attempts) (attempt_from_status port 1 attempts),
)
