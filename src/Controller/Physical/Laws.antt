-- ===== src/Controller/Physical/Laws.antt =====
-- The register window is open exactly while the controller is awake.
use voodoo_i2c.Base.{ℕ, ◌≡◌, refl, true, false, none, some, if◌then◌else◌}
use voodoo_i2c.Controller.Physical.{Controller, map_memory, unmap_memory}

pub IsWindowed : ℕ → Controller → Type 0
IsWindowed address c = c.port.mmap ≡ (if c.awake then some address else none)

module _ (address : ℕ) (c : Controller) where
  -- An awake controller with a mapping that stands.
  pub awake-IsWindowed : c.awake ≡ true → c.port.mmap ≡ some address → IsWindowed address c
  unfolding IsWindowed
  awake-IsWindowed e m = rw e m

  pub closed-IsWindowed : c.awake ≡ false → c.port.mmap ≡ none → IsWindowed address c
  unfolding IsWindowed
  closed-IsWindowed e m = rw e m

  pub asleep-IsWindowed : c.awake ≡ false → IsWindowed address (unmap_memory c)
  unfolding IsWindowed unmap_memory
  asleep-IsWindowed e = rw e refl

  pub IsWindowed-asleep : IsWindowed address c → c.awake ≡ false → c.port.mmap ≡ none
  unfolding IsWindowed
  IsWindowed-asleep h e = rw e at h

  pub map_memory-mapped : (map_memory (some (some address)) c).1.port.mmap ≡ some address
  unfolding map_memory
  map_memory-mapped = refl
