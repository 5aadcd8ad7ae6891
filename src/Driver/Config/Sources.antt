-- ===== src/Driver/Config/Sources.antt =====
-- Where the values of the configuration come from.
use voodoo_i2c.Base.{
  ℕ, ◌≡◌, refl, false, some, ◌∷◌, [], ◌==◌, leb, Bool-cases, inl, inr, ◌/◌, ◌<◌, ◌^◌, arith, ◌∙◌,
  ap, if_both,
}
use voodoo_i2c.Driver.Config.{
  Registry, configured, Acpi, get_bus_config, get_num_property, clk_rate, derive_config, apply_acpi,
  u32, default_config,
}
use voodoo_i2c.Driver.Types.{is_success, IoReturn, Driver}
use voodoo_i2c.Registers.{Chip}
use voodoo_i2c.Controller.Nub.{elements, get_acpi_params}

-- Counts that are not 0 are not derived.
derive_config-id :
    (registry : Registry) (clk h l h' l' s : ℕ)
    → 0 < h
    → 0 < l
    → 0 < h'
    → 0 < l'
    → derive_config registry clk
        (record { ss_hcnt = h; fs_hcnt = h'; ss_lcnt = l; fs_lcnt = l'; sda_hold = s })
      ≡ record { ss_hcnt = h; fs_hcnt = h'; ss_lcnt = l; fs_lcnt = l'; sda_hold = s }
unfolding derive_config
derive_config-id registry clk h l h' l' s a b c d =
    let h0 : (h == 0) ≡ false = ground arith in
    let l0 : (l == 0) ≡ false = ground arith in
    let h1 : (h' == 0) ≡ false = ground arith in
    let l1 : (l' == 0) ≡ false = ground arith in rw h0 (rw l0 (rw h1 (rw l1 refl)))

-- What the ACPI methods give is used as it is, where the counts are not 0 and all numbers fit in 32
-- bits: it comes before what the registry says and what the
-- clock gives, and the hold time is that of FMCN.
configured-acpi :
    (registry : Registry) (clk : ℕ) (h l s h' l' s' : ℕ)
    → 0 < h
    → h < 2 ^ 32
    → 0 < l
    → l < 2 ^ 32
    → 0 < h'
    → h' < 2 ^ 32
    → 0 < l'
    → l' < 2 ^ 32
    → s' < 2 ^ 32
    → configured registry
        (record {
          sscn = some (elements (some h ∷ some l ∷ some s ∷ []));
          fmcn = some (elements (some h' ∷ some l' ∷ some s' ∷ []));
        })
        clk
      ≡ record { ss_hcnt = h; fs_hcnt = h'; ss_lcnt = l; fs_lcnt = l'; sda_hold = s' }
unfolding configured derive_config apply_acpi get_acpi_params
configured-acpi registry clk h l s h' l' s' a b c d e f g i j =
    let u : u32 h ≡ h = omega arith in
    let u' : u32 h' ≡ h' = omega arith in
    let v : u32 l ≡ l = omega arith in
    let v' : u32 l' ≡ l' = omega arith in
    let w : u32 s' ≡ s' = omega arith in
    ap (derive_config registry clk)
      {x = apply_acpi
        (record {
          sscn = some (elements (some h ∷ some l ∷ some s ∷ []));
          fmcn = some (elements (some h' ∷ some l' ∷ some s' ∷ []));
        })
        (default_config registry clk)}
      {y = record { ss_hcnt = h; fs_hcnt = h'; ss_lcnt = l; fs_lcnt = l'; sda_hold = s' }}
      (rw u (rw v (rw u' (rw v' (rw w refl)))))
    ∙ derive_config-id registry clk h l h' l' s' a c e g

-- The configuration is found exactly when the registry gives a clock of at least 1 kHz.
pub get_bus_config-rate :
    (chip : Chip) (registry : Registry) (acpi : Acpi) (d : Driver)
    → is_success (get_bus_config chip registry acpi d).0
      ≡ leb 1000 (get_num_property registry clk_rate)
unfolding get_bus_config
get_bus_config-rate chip registry acpi d =
    elim (Bool-cases (get_num_property registry clk_rate / 1000 == 0)) [
      | inl e ↦ rw e (ground arith)
      | inr e ↦ rw e (ground arith)
    ]

-- Reading the configuration leaves the interrupt alone.
pub get_bus_config-registered :
    (chip : Chip) (registry : Registry) (acpi : Acpi) (d : Driver)
    → (get_bus_config chip registry acpi d).1.is_interrupt_registered ≡ d.is_interrupt_registered
unfolding get_bus_config
get_bus_config-registered chip registry acpi d =
    if_both {A = IoReturn × Driver} (λ r. r.1.is_interrupt_registered ≡ d.is_interrupt_registered)
      (get_num_property registry clk_rate / 1000 == 0) refl refl
