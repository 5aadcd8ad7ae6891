-- ===== src/Controller/Pci/Power.antt =====
-- The register window follows the power of a PCI controller.
use voodoo_i2c.Base.{ℕ, ◌≡◌, refl, Bool, false, not, Option, some, ◌==◌, if_both, ◌∙◌}
use voodoo_i2c.Registers.{Chip, read_register}
use voodoo_i2c.Registers.Laws.{write_register-mmap, read_unmapped}
use voodoo_i2c.Controller.Physical.{map_memory}
use voodoo_i2c.Controller.Physical.Laws.{
  IsWindowed, IsWindowed-asleep, awake-IsWindowed, asleep-IsWindowed, map_memory-mapped,
}
use voodoo_i2c.Controller.Pci.{
  PciController, go_to_sleep, wake_up, set_power_state, skylake_lpss_reset_hack,
}

module _ (capability : Option ℕ) (address : ℕ) where
  wake_up-IsWindowed :
      (c : PciController) → IsWindowed address (wake_up capability (some (some address)) c).base
  unfolding wake_up skylake_lpss_reset_hack
  wake_up-IsWindowed c = awake-IsWindowed address _ refl (
      write_register-mmap 7 0x204 (map_memory (some (some address)) c.base).1.port
      ∙ map_memory-mapped address c.base)

  go_to_sleep-IsWindowed : (c : PciController) → IsWindowed address (go_to_sleep c).base
  unfolding go_to_sleep
  go_to_sleep-IsWindowed c = asleep-IsWindowed address (record c.base { awake = false }) refl

  -- Where the system maps the memory at one address, the window is mapped there exactly while the
  -- controller is awake, whatever changes of power are asked for.
  pub set_power_state-IsWindowed :
      (which_state : ℕ) (is_self : Bool) (c : PciController)
      → IsWindowed address c.base
      → IsWindowed address
          (set_power_state capability (some (some address)) which_state is_self c).base
  unfolding set_power_state
  set_power_state-IsWindowed which_state is_self c h =
      let windowed = λ (d : PciController). IsWindowed address d.base in
      let sleeping = if_both windowed c.base.awake (go_to_sleep-IsWindowed c) h in
      let waking = if_both windowed c.base.awake h (wake_up-IsWindowed c) in
      if_both windowed (not is_self) h (if_both windowed (which_state == 0) sleeping waking)

-- While a PCI controller whose window follows its power sleeps, the driver's reads give 0 and reach no register.
asleep-read :
    (chip : Chip) (address offset : ℕ) (c : PciController)
    → IsWindowed address c.base
    → c.base.awake ≡ false
    → read_register chip offset c.base.port ≡ (0, c.base.port)
asleep-read chip address offset c h e =
    read_unmapped chip offset c.base.port (IsWindowed-asleep address c.base h e)
