-- ===== src/Bridge/Datasets.antt =====
-- What `thread_dataset` takes for a dataset.
use matter_thread2mqtt.Prelude.{
  ℤ, pos, Text, List, [], ◌∷◌, ◌++◌, append-nil, append_assoc, all-append, Bool, true, false, not,
  ◌≡◌, refl, ap, ◌∙◌, sym, subst, ◌==◌, int_eq, text_eq, inl, inr, arith, Bool-cases, contains,
  contains-append, all, eqb_ℤ_iff, same_refl,
}
use matter_thread2mqtt.Python.{Runtime, strip, splitlines}
use matter_thread2mqtt.Python.LineLaws.{IsPart, IsPart-trans, strip-IsPart, splitlines-IsPart}
use matter_thread2mqtt.Bridge.Thread.{
  Dataset, dataset, failed, exited, no_dataset, is_dataset, first_dataset, thread_dataset,
}

-- No line is a dataset once stripped.
abbrev pub none_fits : Runtime → List Text → Bool
none_fits py lines = all (λ line. not (is_dataset (strip py line))) lines

-- What is read from the output of ot-ctl: nothing if it failed, the first line that is a dataset once
-- stripped, or nothing if no line is.
pub data Printed (py : Runtime) (returncode : ℤ) (output : Text) : Dataset → Type 0 where
  broken : (returncode == pos 0) ≡ false → Printed py returncode output (failed (exited returncode))
  found :
      (before : List Text) (line : Text) (after : List Text)
      → returncode ≡ pos 0
      → splitlines output ≡ before ++ line ∷ after
      → none_fits py before ≡ true
      → is_dataset (strip py line) ≡ true
      → IsPart (strip py line) output
      → Printed py returncode output (dataset (strip py line))
  missing :
      returncode ≡ pos 0
      → none_fits py (splitlines output) ≡ true
      → Printed py returncode output (failed no_dataset)

listed :
    (before : List Text) (line : Text) (after : List Text)
    → contains (before ++ line ∷ after) line ≡ true
unfolding contains
listed before line after =
    ground (arith, contains-append before (line ∷ after) line, same_refl line)

-- The lines that were passed over are `before`, in order.
first_dataset-Printed :
    (py : Runtime) (returncode : ℤ) (output : Text) (lines before : List Text)
    → returncode ≡ pos 0
    → splitlines output ≡ before ++ lines
    → none_fits py before ≡ true
    → Printed py returncode output (first_dataset py lines)
unfolding first_dataset
first_dataset-Printed py returncode output [] before e same skipped =
    missing e (ap (none_fits py) (same ∙ append-nil before) ∙ skipped)
first_dataset-Printed py returncode output (line ∷ lines) before e same skipped =
    elim (Bool-cases (is_dataset (strip py line))) [
      | inl fits ↦ rw fits (
          found before line lines e same skipped fits (
            IsPart-trans (strip-IsPart py line) (
              splitlines-IsPart output line (
                subst (λ (ls : List Text). contains ls line ≡ true) (sym same)
                  (listed before line lines)))))
      | inr unfit ↦ rw unfit (
          first_dataset-Printed py returncode output lines (before ++ line ∷ []) e
            (same ∙ sym (append_assoc before (line ∷ []) lines))
            (all-append (λ l. not (is_dataset (strip py l))) before (line ∷ []) skipped
              (ground arith)))
    ]

-- What is read from ot-ctl is decided by its exit status and its output. With a status other than 0
-- it is an error. With 0 it is the first line of the output that is a dataset once stripped, which
-- has at least 20 characters, all hexadecimal digits, and is a stretch of the output; or an error,
-- if no line is one.
pub thread_dataset-Printed :
    (py : Runtime) (returncode : ℤ) (output : Text)
    → Printed py returncode output (thread_dataset py returncode output)
unfolding thread_dataset
thread_dataset-Printed py returncode output = elim (Bool-cases (returncode == pos 0)) [
  | inl zero_status ↦ rw zero_status (
      first_dataset-Printed py returncode output (splitlines output) []
        ((eqb_ℤ_iff returncode (pos 0)).0 zero_status) refl refl)
  | inr other ↦ rw other (broken other)
]
