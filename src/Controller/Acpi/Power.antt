-- ===== src/Controller/Acpi/Power.antt =====
-- The power of an ACPI controller.
use voodoo_i2c.Base.{ℕ, ◌≡◌, refl, ◌∙◌, Bool, false, not, some, ◌==◌, if_both}
use voodoo_i2c.Registers.Laws.{write_register-mmap}
use voodoo_i2c.Driver.Types.{IoReturn, BusState, on, off, to_word}
use voodoo_i2c.Controller.Physical.{Controller}
use voodoo_i2c.Controller.Physical.Laws.{
  IsWindowed, awake-IsWindowed, asleep-IsWindowed, map_memory-mapped,
}
use voodoo_i2c.Controller.Acpi.{
  AcpiController, go_to_sleep, wake_up, set_power_state, set_clk_gating, set_acpi_power_state,
}

set_clk_gating-mmap :
    (legacy : Bool) (enabled : BusState) (c : Controller)
    → (set_clk_gating legacy enabled c).port.mmap ≡ c.port.mmap
unfolding set_clk_gating
set_clk_gating-mmap legacy enabled c =
    if_both {A = Controller} (λ r. r.port.mmap ≡ c.port.mmap) (not legacy) refl
      (write_register-mmap (to_word enabled) 0x800 c.port)

set_clk_gating-awake :
    (legacy : Bool) (enabled : BusState) (c : Controller)
    → (set_clk_gating legacy enabled c).awake ≡ c.awake
unfolding set_clk_gating
set_clk_gating-awake legacy enabled c =
    if_both {A = Controller} (λ r. r.awake ≡ c.awake) (not legacy) refl refl

module _ (evaluate : BusState → IoReturn) (address : ℕ) where
  wake_up-IsWindowed :
      (c : AcpiController) → IsWindowed address (wake_up evaluate (some (some address)) c).base
  unfolding wake_up set_acpi_power_state
  wake_up-IsWindowed c =
      awake-IsWindowed address _ refl
        (set_clk_gating-mmap c.legacy_intel_lpss on _ ∙ map_memory-mapped address c.base)

  go_to_sleep-IsWindowed : (c : AcpiController) → IsWindowed address (go_to_sleep evaluate c).base
  unfolding go_to_sleep set_acpi_power_state
  go_to_sleep-IsWindowed c =
      asleep-IsWindowed address _
        (set_clk_gating-awake c.legacy_intel_lpss off (record c.base { awake = false }))

  -- Where the system maps the memory at one address, the window is mapped there exactly while the
  -- controller is awake, whatever changes of power are asked for and whatever ACPI answers.
  pub set_power_state-mmap :
      (which_state : ℕ) (is_self : Bool) (c : AcpiController)
      → IsWindowed address c.base
      → IsWindowed address
          (set_power_state evaluate (some (some address)) which_state is_self c).base
  unfolding set_power_state
  set_power_state-mmap which_state is_self c h =
      let windowed = λ (d : AcpiController). IsWindowed address d.base in
      let sleeping = if_both windowed c.base.awake (go_to_sleep-IsWindowed c) h in
      let waking = if_both windowed c.base.awake h (wake_up-IsWindowed c) in
      if_both windowed (not is_self) h (if_both windowed (which_state == 0) sleeping waking)
