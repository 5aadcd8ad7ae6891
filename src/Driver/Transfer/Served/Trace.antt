-- ===== src/Driver/Transfer/Served/Trace.antt =====
-- What an access to a mapped window does to the settings of the block.
use voodoo_i2c.Base.{ℕ, ◌≡◌, refl, ap, ◌∙◌, false, ◌==◌, ◌||◌, if◌then◌else◌}
use voodoo_i2c.Base.Words.{u32}
use voodoo_i2c.Registers.{Chip, Port, read_register, write_register}
use voodoo_i2c.Registers.Laws.{IsMapped, read_mapped, write_mapped}
use voodoo_i2c.Driver.Constants.{dw_ic_clr_stop_det, dw_ic_clr_intr, dw_ic_data_cmd}
use voodoo_i2c.Driver.Transfer.Served.{last_write, stops_since}

module _ {p : Port} {base : ℕ} (m : IsMapped p base) where
  pub last-read :
      (chip : Chip) (at offset : ℕ)
      → last_write offset (read_register chip at p).1.trace ≡ last_write offset p.trace
  last-read chip at offset = ap (λ r. last_write offset r.1.trace) (read_mapped m chip at)

  pub last-write :
      (value at offset : ℕ)
      → last_write offset (write_register value at p).1.trace
        ≡ (if at == offset then u32 value else last_write offset p.trace)
  last-write value at offset = ap (λ r. last_write offset r.1.trace) (write_mapped m value at)

  pub since-read :
      (chip : Chip) (at : ℕ)
      → stops_since (read_register chip at p).1.trace
        ≡ (if (at == dw_ic_clr_stop_det) || (at == dw_ic_clr_intr) then 0 else stops_since p.trace)
  since-read chip at = ap (λ r. stops_since r.1.trace) (read_mapped m chip at)

  pub since-write :
      (value at : ℕ)
      → (at == dw_ic_data_cmd) ≡ false
      → stops_since (write_register value at p).1.trace ≡ stops_since p.trace
  since-write value at ne = ap (λ r. stops_since r.1.trace) (write_mapped m value at) ∙ rw ne refl
