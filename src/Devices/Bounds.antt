-- ===== src/Devices/Bounds.antt =====
-- What validated writes send.
use matter_thread2mqtt.Prelude.{ℕ, ℤ, ◌≤ℤ◌, Bool, false, none, ◌≡◌, ◌↔◌, arith}
use matter_thread2mqtt.Python.{Runtime, int, float, Value, num, dict, ok, raise, Exc, round_num}
use matter_thread2mqtt.Devices.{
  level_cap, color_cap, Opts, move_to_level, move_to_color, xy_max, check_number, validate, write,
}

-- A light with integer limits accepts an integer brightness exactly if it lies within them, and then
-- the command that is sent carries that very level with the options of the request.
pub validate-level_iff :
    (py : Runtime) (a b i : ℤ) (opts : Opts)
    → ((validate py (level_cap (num (int a)) (num (int b))) (num (int i)) ≡ ok none)
        ↔ ((a ≤ℤ i) × (i ≤ℤ b)))
      × (write py (level_cap (num (int a)) (num (int b))) (num (int i)) opts
          ≡ ok (move_to_level opts.with_on_off i opts.transition))
unfolding validate check_number write round_num
validate-level_iff py a b i opts = ground arith

-- A nan, or any float that the comparisons do not put outside of the limits, passes the validation
-- of a brightness; if `round` refuses it, the write raises.
pub validate-nan :
    (py : Runtime) (a b : ℤ) (f : ℕ) (e : Exc) (opts : Opts)
    → py.float_lt (float f) (int a) ≡ false
    → py.float_lt (int b) (float f) ≡ false
    → py.float_round f ≡ raise e
    → (validate py (level_cap (num (int a)) (num (int b))) (num (float f)) ≡ ok none)
      × (write py (level_cap (num (int a)) (num (int b))) (num (float f)) opts ≡ raise e)
unfolding validate check_number write round_num
validate-nan py a b f e opts h k r = ground arith

-- Whatever value is written, a colour command has its coordinates at most at the cap of the Matter
-- specification, 0xFEFF.
pub write-color_bounds :
    (py : Runtime) (hs xy : Bool) (v : Value) (opts : Opts) (x y t : ℤ)
    → write py (color_cap hs xy) v opts ≡ ok (move_to_color x y t)
    → (x ≤ℤ xy_max) × (y ≤ℤ xy_max)
unfolding write
write-color_bounds py hs xy (dict fs) opts x y t h = ground arith
write-color_bounds py hs xy v opts x y t h = ground arith
