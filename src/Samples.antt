-- ===== src/Samples.antt =====
-- Concrete data for tests: an interpreter, a data model, clients, and a colour lamp.
use matter_thread2mqtt.Prelude.{
  ℕ, ◌/◌, ◌*◌, ℤ, pos, negsuc, [], ◌∷◌, Bool, true, false, Option, none, some, ltb, eqb,
  if◌then◌else◌,
}
use matter_thread2mqtt.Python.{
  Runtime, Num, int, float, Value, num, str, Outcome, ok, raise, value_error, codes,
}
use matter_thread2mqtt.Devices.{
  AttrId, DataModel, Cap, on_off_cap, level_cap, color_temp_cap, color_cap, sensor_cap, battery,
  Printing,
}
use matter_thread2mqtt.Bridge.{Device, Client}

abbrev pub nan : ℕ
nan = 0x7FF8000000000000

-- Doubles that are small whole numbers, under the pattern of that number, and a nan.
abbrev pub whole_lt : Num → Num → Bool
whole_lt (float f) (int (pos n)) = if eqb f nan then false else ltb f n
whole_lt (int (pos n)) (float f) = if eqb f nan then false else ltb n f
whole_lt _ _ = false

abbrev pub whole_round : ℕ → Outcome ℤ
whole_round f = if eqb f nan then raise value_error else ok (pos f)

abbrev pub whole_div : Num → ℕ → Option ℕ
whole_div (int (pos n)) k = some (n / k)
whole_div (int (negsuc n)) k = none
whole_div (float f) k = some (f / k)

abbrev pub py : Runtime
py = record {
  upper_of = λ c. c ∷ [];
  is_space_of = λ c. eqb c 0xA0;
  digit_of = λ c. none;
  parse_float = λ s. none;
  float_lt = whole_lt;
  float_mul = λ f k. f * k;
  true_div = whole_div;
  float_round = whole_round;
  float_round_to = λ f k. f;
  float_pred = λ f. f;
  float_exp10 = λ f. ok f;
  float_trunc = whole_round;
}

abbrev at_cluster : ℕ → ℕ → AttrId
at_cluster c a = record { cluster = pos c; attribute = pos a }

abbrev pub ids : DataModel
ids = record {
  on_off = at_cluster 6 0;
  current_level = at_cluster 8 0;
  color_temp_mireds = at_cluster 768 7;
  current_hue = at_cluster 768 0;
  current_saturation = at_cluster 768 1;
  current_x = at_cluster 768 3;
  current_y = at_cluster 768 4;
  color_mode = at_cluster 768 8;
  temperature = at_cluster 1026 0;
  humidity = at_cluster 1029 0;
  pressure = at_cluster 1027 0;
  illuminance = at_cluster 1024 0;
  occupancy = at_cluster 1030 0;
  contact = at_cluster 69 0;
  battery_percent = at_cluster 47 12;
  battery_level = at_cluster 47 14;
  mode_hs = pos 0;
  mode_xy = pos 1;
  mode_color_temp = pos 2;
  bat_ok = pos 0;
  occupied = 1;
}

-- A client that never fails, with every attribute at 127.
abbrev pub calm : Client
calm = record { answer = λ h e. none; attribute = λ h n ep a. some (num (int (pos 127))) }

-- A client whose every call raises, with an empty cache.
abbrev pub broken : Client
broken = record { answer = λ h e. some 1; attribute = λ h n ep a. none }

abbrev pub number : ℕ → Value
number n = num (int (pos n))

abbrev pub state_cap : Cap
state_cap = record { ep = pos 1; kind = on_off_cap; prop = codes "state" }

abbrev pub brightness_cap : Cap
brightness_cap = record {
  ep = pos 1;
  kind = level_cap (number 1) (number 254);
  prop = codes "brightness";
}

abbrev pub color_temp_cap_of : Cap
color_temp_cap_of = record {
  ep = pos 1;
  kind = color_temp_cap (number 153) (number 555);
  prop = codes "color_temp";
}

abbrev pub color_cap_of : Cap
color_cap_of = record { ep = pos 1; kind = color_cap true true; prop = codes "color" }

abbrev pub battery_cap : Cap
battery_cap = record { ep = pos 0; kind = sensor_cap battery; prop = codes "battery" }

abbrev pub lamp : Device
lamp = record {
  node_id = pos 7;
  friendly_name = codes "desk/lamp";
  unique_id = str (codes "33BB");
  available = true;
  props =
      (codes "battery", battery_cap)
      ∷ (codes "state", state_cap)
      ∷ (codes "brightness", brightness_cap)
      ∷ (codes "color_temp", color_temp_cap_of)
      ∷ (codes "color", color_cap_of)
      ∷ [];
}

abbrev pub printing : Printing
printing = record { text_of = λ v. []; whole_of = λ f. none }
