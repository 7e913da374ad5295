-- ===== src/Reset/Script.antt =====
-- scripts/esp_reset.py: the serial lines that it drives, what it reads back, its exit status. The
-- serial port is a parameter: whether it opens, where a call of it raises, and what it delivers.
use matter_thread2mqtt.Prelude.{
  ℕ, zero, suc, Text, List, [], ◌∷◌, ◌++◌, Bool, true, false, ◌&&◌, ◌||◌, Option, none, some, ◌==◌,
  nat_eq, if◌then◌else◌,
}
use matter_thread2mqtt.Python.{codes}

pub data Action : Type 0 where
  set_dtr set_rts : Bool → Action
  open_port reset_input close : Action
  -- `time.sleep`
  pause : Action
  -- the reads of one window
  receive : Action

pub record Port : Type 0 where
  -- `ser.open()` does not raise
  pub opens : Bool
  -- If a call of an attempt raises: how many of its calls took effect. The one that raises may be one
  -- of them or not, as pySerial records a line before it drives it.
  pub cut : ℕ → Option ℕ
  -- the chunks that `ser.read` returns in the window of an attempt
  pub chunks : ℕ → List (List ℕ)

-- Before the port is opened, and with its opening.
abbrev pub preparing : List Action
preparing = set_dtr false ∷ set_rts false ∷ []

abbrev pub opening : List Action
opening = set_dtr false ∷ set_rts false ∷ open_port ∷ []

abbrev pub pulse_reset : List Action
pulse_reset = set_dtr false ∷ set_rts true ∷ pause ∷ set_rts false ∷ set_dtr false ∷ []

-- The chunks of a window, joined.
unfoldable pub read_banner : List (List ℕ) → List ℕ
read_banner [] = []
read_banner (chunk ∷ more) = chunk ++ read_banner more

unfoldable pub starts_with : List ℕ → List ℕ → Bool
starts_with [] bs = true
starts_with (m ∷ ms) [] = false
starts_with (m ∷ ms) (b ∷ bs) = m == b && starts_with ms bs

-- `marker in banner`
unfoldable pub occurs : List ℕ → List ℕ → Bool
unfolding starts_with
occurs marker [] = starts_with marker []
occurs marker (b ∷ bs) = starts_with marker (b ∷ bs) || occurs marker bs

unfoldable pub any_occurs : List (List ℕ) → List ℕ → Bool
unfolding occurs
any_occurs [] bs = false
any_occurs (m ∷ ms) bs = occurs m bs || any_occurs ms bs

abbrev pub download_markers : List Text
download_markers =
    codes "waiting for download" ∷ codes "DOWNLOAD(USB/UART0)" ∷ codes "DOWNLOAD_BOOT" ∷ []

abbrev pub boot_markers : List Text
boot_markers = codes "ESP-ROM:" ∷ codes "boot:" ∷ codes "rst:" ∷ []

pub data Boot : Type 0 where
  download booted quiet : Boot

unfoldable pub classify : List ℕ → Boot
unfolding any_occurs
classify banner =
    if any_occurs download_markers banner
    then download
    else if any_occurs boot_markers banner
    then booted
    else quiet

-- What an attempt finds; `none` if a call raises.
unfoldable pub outcome : Port → ℕ → Option Boot
unfolding classify read_banner
outcome port n = elim (port.cut n) [
  | none ↦ some (classify (read_banner (port.chunks n)))
  | some k ↦ none
]

abbrev pub calls_made : Port → ℕ → ℕ
calls_made port n = elim (port.cut n) [ none ↦ 0 | some k ↦ k ]

-- The calls of one attempt, up to its verdict.
abbrev pub attempt : List Action
attempt = reset_input ∷ (pulse_reset ++ receive ∷ [])

-- The first calls
abbrev pub taken : ℕ → List Action → List Action
taken zero xs = []
taken (suc k) [] = []
taken (suc k) (x ∷ xs) = x ∷ taken k xs

-- How the loop goes on after a verdict: with the attempts that are left, or with an exit status (1
-- as well for an exception of the port, which nothing catches, after `k` calls).
unfoldable pub after : List Action × ℕ → (k : ℕ) → Option Boot → List Action × ℕ
after rest k none = (taken k attempt, 1)
after rest k (some booted) = (attempt, 0)
after rest k (some quiet) = (attempt, 1)
after rest k (some download) = (attempt ++ pause ∷ rest.0, rest.1)

unfoldable pub attempt_from : Port → ℕ → ℕ → List Action × ℕ
unfolding outcome after
attempt_from port n zero = ([], 1)
attempt_from port n (suc left) =
    after (attempt_from port (suc n) left) (calls_made port n) (outcome port n)

-- `main` around its loop; `sys.exit` with a text exits with status 1.
unfoldable pub whole : Bool → List Action × ℕ → List Action × ℕ
whole true body = (opening ++ (body.0 ++ close ∷ []), body.1)
whole false body = (preparing, 1)

-- `main`, for a number of attempts
unfoldable pub main : Port → ℕ → List Action × ℕ
unfolding attempt_from whole
main port attempts = whole port.opens (attempt_from port 1 attempts)
