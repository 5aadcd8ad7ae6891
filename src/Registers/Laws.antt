-- ===== src/Registers/Laws.antt =====
-- How the register window behaves when it is mapped, and when it is not.
use voodoo_i2c.Base.{
  ◌≤◌, Option-cases, inl, inr, ℕ, ◌≡◌, refl, false, none, some, List, ◌∷◌, ◌==◌, arith, if_both,
}
use voodoo_i2c.Base.Words.{u32}
use voodoo_i2c.Registers.{Access, reads, writes, Chip, Port, read_register, write_register}

-- The window is mapped at an address other than 0.
pub record IsMapped (p : Port) (address : ℕ) : Type 0 where
  pub mapped : p.mmap ≡ some address
  pub nonzero : (address == 0) ≡ false

module _ {p : Port} {address : ℕ} (m : IsMapped p address) where
  pub read_mapped :
      (chip : Chip) (offset : ℕ)
      → read_register chip offset p ≡ (
        u32 (chip p.trace offset),
        record p { trace = reads offset (u32 (chip p.trace offset)) ∷ p.trace },
      )
  unfolding read_register
  read_mapped chip offset = rw (m.mapped, m.nonzero)

  pub write_mapped :
      (value offset : ℕ)
      → write_register value offset p
        ≡ (tt, record p { trace = writes offset (u32 value) ∷ p.trace })
  unfolding write_register
  write_mapped value offset = rw (m.mapped, m.nonzero)

  pub extend : (t : List Access) → IsMapped (record p { trace = t }) address
  extend t = record { mapped = m.mapped; nonzero = m.nonzero }

  pub write_IsMapped : (value offset : ℕ) → IsMapped (write_register value offset p).1 address
  write_IsMapped value offset = rw (write_mapped value offset) (extend _)

  pub read_IsMapped : (chip : Chip) (offset : ℕ) → IsMapped (read_register chip offset p).1 address
  read_IsMapped chip offset = rw (read_mapped chip offset) (extend _)

-- A bound on what the chip answers is a bound on what is read; an unmapped window reads 0.
pub read_register-le :
    (chip : Chip) (offset bound : ℕ) (p : Port)
    → ((t : List Access) → chip t offset ≤ bound)
    → (read_register chip offset p).0 ≤ bound
unfolding read_register
read_register-le chip offset bound p h = elim (Option-cases p.mmap) [
  | inl e ↦ rw (e, read_register) (omega arith)
  | inr (a, e) ↦ rw (e, read_register) (ground (arith, h p.trace))
]

-- A write leaves the mapping alone.
pub write_register-mmap :
    (value offset : ℕ) (p : Port) → (write_register value offset p).1.mmap ≡ p.mmap
unfolding write_register
write_register-mmap value offset p = elim (Option-cases p.mmap) [
  | inl e ↦ rw e refl
  | inr (a, e) ↦ rw e (if_both {A = Unit {0} × Port} (λ r. r.1.mmap ≡ some a) (a == 0) refl refl)
]

-- Without a mapping there is no access, and a read gives 0.
pub read_unmapped :
    (chip : Chip) (offset : ℕ) (p : Port) → p.mmap ≡ none → read_register chip offset p ≡ (0, p)
unfolding read_register
read_unmapped chip offset p e = rw e refl

pub write_unmapped :
    (value offset : ℕ) (p : Port) → p.mmap ≡ none → write_register value offset p ≡ (tt, p)
unfolding write_register
write_unmapped value offset p e = rw e refl
