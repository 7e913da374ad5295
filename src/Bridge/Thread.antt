-- ===== src/Bridge/Thread.antt =====
-- `thread_dataset` and `paa_cert_problem` of mqtt_bridge/matter.py: what a provision needs to know
-- before it commissions. The subprocess and the file system are arguments.
use matter_thread2mqtt.Prelude.{
  ℕ, ℤ, pos, Text, List, [], ◌∷◌, Bool, not, ◌&&◌, ◌||◌, Option, none, some, ◌==◌, nat_eq, int_eq,
  text_eq, leb, eqb, all, length, if◌then◌else◌,
}
use matter_thread2mqtt.Python.{Runtime, strip, splitlines}

-- The trust store is not there, or is empty, with or without the marker that keeps it.
pub data CertProblem : Type 0 where
  no_directory : CertProblem
  no_certificates : (marker : Bool) → CertProblem

unfoldable pub paa_cert_problem :
    (is_dir : Bool) → (ders : ℕ) → (marker : Bool) → Option CertProblem
paa_cert_problem is_dir ders marker =
    if not is_dir
    then some no_directory
    else if eqb ders 0
    then some (no_certificates marker)
    else none

-- `[0-9a-fA-F]`
abbrev pub is_hex : ℕ → Bool
is_hex c = (leb 48 c && leb c 57) || ((leb 97 c && leb c 102) || (leb 65 c && leb c 70))

-- A stripped line that is a dataset: at least 20 hexadecimal digits.
unfoldable pub is_dataset : Text → Bool
is_dataset line = all is_hex line && leb 20 (length line)

pub data DatasetError : Type 0 where
  exited : ℤ → DatasetError
  no_dataset : DatasetError

pub data Dataset : Type 0 where
  dataset : Text → Dataset
  failed : DatasetError → Dataset

unfoldable pub first_dataset : Runtime → List Text → Dataset
unfolding is_dataset strip
first_dataset py [] = failed no_dataset
first_dataset py (line ∷ lines) =
    let rest = first_dataset py lines in
    if is_dataset (strip py line) then dataset (strip py line) else rest

-- For the exit status of ot-ctl and its decoded output.
unfoldable pub thread_dataset : Runtime → ℤ → Text → Dataset
unfolding first_dataset splitlines
thread_dataset py returncode output =
    if returncode == pos 0 then first_dataset py (splitlines output) else failed (exited returncode)
