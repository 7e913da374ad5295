-- ===== src/Reset/Attempts.antt =====
-- The reset script gives up after its last attempt.
use matter_thread2mqtt.Prelude.{
  ℕ, zero, suc, ◌+◌, ◌≤◌, List, [], ◌∷◌, ◌++◌, Bool, true, false, Option, none, some, ◌≡◌, arith,
}
use matter_thread2mqtt.Reset.{
  Action, set_dtr, set_rts, open_port, reset_input, close, pause, receive, Port, Boot, booted,
  quiet, download, outcome, after, attempt_from, whole, main, attempt, taken, calls_made,
}

-- How often the script reads the banner, which is once in an attempt.
abbrev pub reads : List Action → ℕ
reads [] = 0
reads (receive ∷ xs) = suc (reads xs)
reads (a ∷ xs) = reads xs

reads-append : (xs ys : List Action) → reads (xs ++ ys) ≡ reads xs + reads ys
reads-append [] ys = omega arith
reads-append (receive ∷ xs) ys = let h = reads-append xs ys in omega arith
reads-append (set_dtr b ∷ xs) ys = reads-append xs ys
reads-append (set_rts b ∷ xs) ys = reads-append xs ys
reads-append (open_port ∷ xs) ys = reads-append xs ys
reads-append (reset_input ∷ xs) ys = reads-append xs ys
reads-append (close ∷ xs) ys = reads-append xs ys
reads-append (pause ∷ xs) ys = reads-append xs ys

reads-taken : (k : ℕ) (xs : List Action) → reads (taken k xs) ≤ reads xs
reads-taken zero xs = omega arith
reads-taken (suc k) [] = omega arith
reads-taken (suc k) (receive ∷ xs) = let h = reads-taken k xs in omega arith
reads-taken (suc k) (set_dtr b ∷ xs) = reads-taken k xs
reads-taken (suc k) (set_rts b ∷ xs) = reads-taken k xs
reads-taken (suc k) (open_port ∷ xs) = reads-taken k xs
reads-taken (suc k) (reset_input ∷ xs) = reads-taken k xs
reads-taken (suc k) (close ∷ xs) = reads-taken k xs
reads-taken (suc k) (pause ∷ xs) = reads-taken k xs

after_bound :
    (rest : List Action × ℕ) (k : ℕ) (o : Option Boot) (left : ℕ)
    → reads rest.0 ≤ left
    → reads (after rest k o).0 ≤ suc left
unfolding after
after_bound rest k none left h = let e = reads-taken k attempt in omega arith
after_bound rest k (some booted) left h = ground arith
after_bound rest k (some quiet) left h = ground arith
after_bound rest k (some download) left h = omega arith

attempt_from-bound : (port : Port) (n left : ℕ) → reads (attempt_from port n left).0 ≤ left
unfolding attempt_from
attempt_from-bound port n zero = ground arith
attempt_from-bound port n (suc left) =
    after_bound (attempt_from port (suc n) left) (calls_made port n) (outcome port n) left
      (attempt_from-bound port (suc n) left)

whole_bound :
    (opens : Bool) (body : List Action × ℕ) (left : ℕ)
    → reads body.0 ≤ left
    → reads (whole opens body).0 ≤ left
unfolding whole
whole_bound true body left h = let same = reads-append body.0 (close ∷ []) in omega arith
whole_bound false body left h = ground arith

-- Whatever the port delivers, the script ends after at most the given number of attempts: it reads the
-- banner of the chip at most that often.
pub main-attempts : (port : Port) (attempts : ℕ) → reads (main port attempts).0 ≤ attempts
unfolding main
main-attempts port attempts =
    whole_bound port.opens (attempt_from port 1 attempts) attempts
      (attempt_from-bound port 1 attempts)
