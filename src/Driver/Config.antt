-- ===== src/Driver/Config.antt =====
-- `getBusConfig` and what it calls: the timing of the bus, from the registry, from ACPI, or derived
-- from the clock. What the registry and ACPI hold are arguments.
pub mod Rounding
pub mod Sources
use voodoo_i2c.Base.{
  ℕ, ◌+◌, ◌*◌, ◌/◌, ◌%◌, ◌^◌, Bool, true, false, ◌||◌, Option, none, some, ◌==◌, leb, if◌then◌else◌,
}
use voodoo_i2c.Base.Bits.{set_bit}
use voodoo_i2c.Base.State.{Cmd}
use voodoo_i2c.Base.Words.{u32, add32, sub32}
use voodoo_i2c.Registers.{Chip, Port, read_register}
use voodoo_i2c.Controller.Nub.{AcpiObject, Timing, get_acpi_params}
use voodoo_i2c.Driver.Constants.{
  dw_ic_comp_param_1, dw_ic_comp_version, dw_ic_sda_hold, dw_ic_sda_hold_min_vers,
  dw_ic_sda_hold_rx_shift,
}
use voodoo_i2c.Driver.Types.{IoReturn, success, error, BusConfig, BusDevice, Driver}

-- The keys of the personality.
pub data Key : Type 0 where
  clk_rate sda_hold_time_ns sda_hold_time sda_falling_time_ns scl_falling_time_ns : Key
  ss_high_count ss_low_count fs_high_count fs_low_count mask_quirk : Key

pub data Property : Type 0 where
  number : ℕ → Property
  boolean : Bool → Property
  other : Property

abbrev pub Registry : Type 0
Registry = Key → Option Property

pub get_num_property : Registry → Key → ℕ
get_num_property registry key = elim (registry key) [ some (number n) ↦ u32 n | _ ↦ 0 ]

pub get_bool_property : Registry → Key → Bool
get_bool_property registry key = elim (registry key) [ some (boolean b) ↦ b | _ ↦ false ]

abbrev pub micro : ℕ
micro = 1_000_000

-- DIV_ROUND_CLOSEST_ULL, on unsigned 64-bit numbers.
pub div_round_closest_ull : ℕ → ℕ → ℕ
div_round_closest_ull x divisor = ((x + divisor / 2) % 2 ^ 64) / divisor

-- The factor `tHigh + tFall` is a 32-bit sum.
pub vi2c_scl_hcnt : ℕ → ℕ → ℕ → ℕ
vi2c_scl_hcnt clk t_high t_fall =
    sub32 (u32 (div_round_closest_ull (clk * add32 t_high t_fall) micro)) 3

pub vi2c_scl_lcnt : ℕ → ℕ → ℕ → ℕ
vi2c_scl_lcnt clk t_low t_fall =
    sub32 (u32 (div_round_closest_ull (clk * add32 t_low t_fall) micro)) 1

-- `x ?: 300`
abbrev pub or_default : ℕ → ℕ
or_default x = if x == 0 then 300 else x

-- The controller's defaults.
pub default_config : Registry → ℕ → BusConfig
default_config registry clk_khz =
    let sda_hold = get_num_property registry sda_hold_time in
    record {
      ss_hcnt = get_num_property registry ss_high_count;
      fs_hcnt = get_num_property registry fs_high_count;
      ss_lcnt = get_num_property registry ss_low_count;
      fs_lcnt = get_num_property registry fs_low_count;
      sda_hold =
          if sda_hold == 0
          then u32
              (div_round_closest_ull (clk_khz * get_num_property registry sda_hold_time_ns) micro)
          else sda_hold;
    }

-- The ACPI methods SSCN and FMCN.
pub record Acpi : Type 0 where
  pub sscn : Option AcpiObject
  pub fmcn : Option AcpiObject

pub apply_acpi : Acpi → BusConfig → BusConfig
apply_acpi acpi c =
    let ss =
      (get_acpi_params acpi.sscn false
        (record { hcnt = c.ss_hcnt; lcnt = c.ss_lcnt; sda_hold = c.sda_hold })).1 in
    let fs =
      (get_acpi_params acpi.fmcn true
        (record { hcnt = c.fs_hcnt; lcnt = c.fs_lcnt; sda_hold = c.sda_hold })).1 in
    record {
      ss_hcnt = ss.hcnt;
      fs_hcnt = fs.hcnt;
      ss_lcnt = ss.lcnt;
      fs_lcnt = fs.lcnt;
      sda_hold = fs.sda_hold;
    }

-- The pairs that are not filled in, derived from the clock.
pub derive_config : Registry → ℕ → BusConfig → BusConfig
derive_config registry clk_khz c =
    let sda_fall_ns = or_default (get_num_property registry sda_falling_time_ns) in
    let scl_fall_ns = or_default (get_num_property registry scl_falling_time_ns) in
    let ss = (c.ss_hcnt == 0) || (c.ss_lcnt == 0) in
    let fs = (c.fs_hcnt == 0) || (c.fs_lcnt == 0) in
    record {
      ss_hcnt = if ss then vi2c_scl_hcnt clk_khz 4000 sda_fall_ns else c.ss_hcnt;
      fs_hcnt = if fs then vi2c_scl_hcnt clk_khz 600 sda_fall_ns else c.fs_hcnt;
      ss_lcnt = if ss then vi2c_scl_lcnt clk_khz 4700 scl_fall_ns else c.ss_lcnt;
      fs_lcnt = if fs then vi2c_scl_lcnt clk_khz 1300 scl_fall_ns else c.fs_lcnt;
      sda_hold = c.sda_hold;
    }

-- The eight bits of DW_IC_SDA_HOLD_RX_MASK.
abbrev pub rx_hold : ℕ → ℕ
rx_hold sda_hold = (sda_hold / 2 ^ 16) % 256

-- A block that is new enough has a hold time, and one for receiving.
pub adjust_hold : Chip → ℕ → Cmd Port ℕ
adjust_hold chip sda_hold p =
    let (version, p₁) = read_register chip dw_ic_comp_version p in
    let (current, p₂) = read_register chip dw_ic_sda_hold p₁ in
    let hold = if sda_hold == 0 then current else sda_hold in
    let adjusted = if rx_hold hold == 0 then set_bit hold dw_ic_sda_hold_rx_shift else hold in
    if leb dw_ic_sda_hold_min_vers version
    then (adjusted, if sda_hold == 0 then p₂ else p₁)
    else (sda_hold, p₁)

abbrev pub no_config : BusConfig
no_config = record { ss_hcnt = 0; fs_hcnt = 0; ss_lcnt = 0; fs_lcnt = 0; sda_hold = 0 }

-- The device behind the reading of DW_IC_COMP_PARAM_1.
pub read_depths : ℕ → BusDevice → BusDevice
read_depths param b = record b {
  transaction_fifo_depth = (param / 2 ^ 16) % 256 + 1;
  receive_fifo_depth = (param / 2 ^ 8) % 256 + 1;
  acpi_config = no_config;
}

pub configured : Registry → Acpi → ℕ → BusConfig
configured registry acpi clk_khz =
    derive_config registry clk_khz (apply_acpi acpi (default_config registry clk_khz))

pub get_bus_config : Chip → Registry → Acpi → Cmd Driver IoReturn
get_bus_config chip registry acpi d =
    let (param, p₁) = read_register chip dw_ic_comp_param_1 d.port in
    let b = read_depths param d.bus_device in
    let clk_khz = get_num_property registry clk_rate / 1000 in
    let c = configured registry acpi clk_khz in
    let (hold, p₂) = adjust_hold chip c.sda_hold p₁ in
    if clk_khz == 0 then (error, record d { bus_device = b; port = p₁ }) else (
      success,
      record d {
        bus_device = record b {
          acpi_config = record c { sda_hold = hold };
          access_intr_mask_workaround = get_bool_property registry mask_quirk;
        };
        port = p₂;
      },
    )
