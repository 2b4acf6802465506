-- ===== src/Config/Samples.antt =====
-- Parameters and a configuration (Default of agent/internal/config/config.go) for concrete runs.
use infracheck_appliance.Base.{ℕ, ◌+◌, ◌-◌, ◌*◌, ◌/◌, ◌==◌, true, ltb, leb, if◌then◌else◌}
use infracheck_appliance.Base.Int.{pos, negsuc}
use infracheck_appliance.Base.Float.{Floats}
use infracheck_appliance.Config.{Config}
use infracheck_appliance.Config.Default.{default_config}
use infracheck_appliance.Config.Validate.{Net}

-- A float64 that is a whole number, for runs that read no float.
abbrev pub whole_floats : Floats
whole_floats = record {
  F = ℕ;
  of_int = λ i. elim i [ pos n ↦ n | negsuc n ↦ 0 ];
  ratio = ◌/◌;
  add = ◌+◌;
  sub = ◌-◌;
  mul = ◌*◌;
  div = ◌/◌;
  lt = ltb;
  le = leb;
  eq = ◌==◌;
  max = λ a b. if ltb a b then b else a;
  to_int = pos;
  fixed = λ n a. "";
}

abbrev pub any_net : Net
any_net = record { parses_cidr = λ s. true; quote = λ s. s }

abbrev pub standard : Config ℕ
standard = default_config whole_floats
