-- ===== src/Parser/Walk.antt =====
-- The walk over the descriptors, and its end.
use voodoo_i2c.Base.{
  ℕ, zero, suc, ◌+◌, ◌*◌, ◌≤◌, ◌^◌, ◌≡◌, refl, List, [], ◌∷◌, Option, some, leb, Bool-cases, inl,
  inr, true, arith, false, ◌<◌,
}
use voodoo_i2c.Parser.{
  Buffer, Parser, next_offset, parse_descriptor, parse_acpi_resources, word16, add32,
}

-- The offsets at which a descriptor is read: each lies in the buffer, the next one follows the length
-- that it gives, and the one after the last is outside.
pub data Walk (res : Buffer) (sz : ℕ) : ℕ → List ℕ → Type 0 where
  ends : {offset : ℕ} → leb sz offset ≡ true → Walk res sz offset []
  steps :
      {offset : ℕ} {offsets : List ℕ}
      → leb sz offset ≡ false
      → Walk res sz (next_offset res offset) offsets
      → Walk res sz offset (offset ∷ offsets)

-- The descriptors parsed one after another.
abbrev pub parse_all : Buffer → ℕ → List ℕ → Parser → Parser
parse_all res sz [] p = p
parse_all res sz (offset ∷ offsets) p = parse_all res sz offsets (parse_descriptor res offset sz p)

word16-lt : (res : Buffer) (a : ℕ) → word16 res a < 2 ^ 16
word16-lt res a = omega arith

next-enough :
    (n offset len sz : ℕ)
    → offset < sz
    → sz + 65_538 ≤ 2 ^ 32
    → len < 2 ^ 16
    → sz ≤ offset + 3 * suc n
    → sz ≤ add32 offset (len + 3) + 3 * n
next-enough n offset len sz inside small short enough = omega arith

-- What a finished walk with a result is.
pub record Parsed (res : Buffer) (offset sz : ℕ) (p : Parser) (r : Option Parser) : Type 0 where
  pub offsets : List ℕ
  pub walk : Walk res sz offset offsets
  pub result : r ≡ some (parse_all res sz offsets p)

-- A buffer whose size leaves room for one descriptor below 2^32 is walked to its end, with a third of
-- its size as the depth of the recursion: the parser gives what the descriptors give one after
-- another.
pub parse_acpi_resources-Parsed :
    (n : ℕ) (res : Buffer) (offset sz : ℕ) (p : Parser)
    → sz + 65_538 ≤ 2 ^ 32
    → sz ≤ offset + 3 * n
    → Parsed res offset sz p (parse_acpi_resources n res offset sz p)
unfolding parse_acpi_resources
parse_acpi_resources-Parsed zero res offset sz p small enough =
    let done : leb sz offset ≡ true = ground arith in
    rw done (record { offsets = []; walk = ends done; result = refl })
parse_acpi_resources-Parsed (suc n) res offset sz p small enough =
    elim (Bool-cases (leb sz offset)) [
      | inl done ↦ rw done (record { offsets = []; walk = ends done; result = refl })
      | inr more ↦
          let rest =
            parse_acpi_resources-Parsed n res (next_offset res offset) sz
              (parse_descriptor res offset sz p) small
              (next-enough n offset (word16 res (offset + 1)) sz (ground arith) small
                (word16-lt res (offset + 1)) enough) in
          rw more (record {
            offsets = offset ∷ rest.offsets;
            walk = steps more rest.walk;
            result = rest.result;
          })
    ]
