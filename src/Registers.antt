-- ===== src/Registers.antt =====
-- The register window of VoodooI2C/VoodooI2C/VoodooI2CController/VoodooI2CController.cpp:
-- `readRegister` and `writeRegister`, behind which stands the DesignWare block itself. The chip is
-- no code of the repository: it is a function from the accesses so far to the value that a register
-- holds, so a statement for every chip covers every behaviour of the hardware.
pub mod Laws
use voodoo_i2c.Base.{
  ℕ, zero, suc, ◌%◌, ◌^◌, Bool, true, false, Option, none, some, List, [], ◌∷◌, if◌then◌else◌, ◌==◌,
}
use voodoo_i2c.Base.State.{Cmd}
use voodoo_i2c.Base.Words.{u32}

-- One access to the mapped device: the register's offset, and the value read or written.
pub data Access : Type 0 where
  reads writes : ℕ → ℕ → Access

-- The newest access comes first.
abbrev pub Chip : Type 0
Chip = List Access → ℕ → ℕ

-- `physical_device.mmap`, as the virtual address that it gives, and the accesses made through it.
pub record Port : Type 0 where
  pub mmap : Option ℕ
  pub trace : List Access

module _ (chip : Chip) where
  unfoldable pub read_register : ℕ → Cmd Port ℕ
  read_register offset p = elim p.mmap [
    | none ↦ (0, p)
    | some address ↦ if address == 0 then (0, p) else (
      u32 (chip p.trace offset),
      record p { trace = reads offset (u32 (chip p.trace offset)) ∷ p.trace },
    )
  ]

unfoldable pub write_register : ℕ → ℕ → Cmd Port (Unit {0})
write_register value offset p = elim p.mmap [
  | none ↦ (tt, p)
  | some address ↦
      if address == 0
      then (tt, p)
      else (tt, record p { trace = writes offset (u32 value) ∷ p.trace })
]
