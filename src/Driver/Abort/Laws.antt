-- ===== src/Driver/Abort/Laws.antt =====
-- What is logged is what the block reports.
use voodoo_i2c.Base.{
  ℕ, ◌/◌, ◌%◌, List, [], ◌∷◌, ◌≡◌, refl, ap, sym, ◌∙◌, ◌^◌, Option, none, some, ◌==◌, if◌then◌else◌,
  arith,
}
use voodoo_i2c.Driver.Abort.{Cause, cause_bit, log_if, handle_abort_i2c}

-- The register DW_IC_TX_ABRT_SOURCE from its lowest bit on, with the bits that are not reported.
abbrev pub source_bits : List (Option Cause)
source_bits =
    some Cause.addr_noack_7b
    ∷ some Cause.addr1_noack_10
    ∷ some Cause.addr2_noack_10
    ∷ some Cause.txdata_noack
    ∷ some Cause.gcall_noack
    ∷ some Cause.gcall_read
    ∷ none
    ∷ some Cause.sbyte_ackdet
    ∷ none
    ∷ some Cause.sbyte_norstrt
    ∷ some Cause.rd_norstrt_10b
    ∷ some Cause.master_dis
    ∷ some Cause.arb_lost
    ∷ []

-- The register is read bit by bit, shifted to the right each time.
pub reported : ℕ → List (Option Cause) → List Cause
reported source [] = []
reported source (none ∷ bits) = reported (source / 2) bits
reported source (some cause ∷ bits) =
    if source % 2 == 1 then cause ∷ reported (source / 2) bits else reported (source / 2) bits

-- One bit more, where `low` is the register from that bit on.
logged :
    (source low high : ℕ) (cause : Cause) (rest : List Cause) (bits : List (Option Cause))
    → low / 2 ≡ high
    → source / 2 ^ cause_bit cause ≡ low
    → rest ≡ reported high bits
    → log_if source cause rest ≡ reported low (some cause ∷ bits)
unfolding reported log_if
logged source low high cause rest bits shifted at same =
    let tail = same ∙ ap (λ n. reported n bits) (sym shifted) in
    λ i. if at i % 2 == 1 then cause ∷ tail i else tail i

skip :
    (low high : ℕ) (bits : List (Option Cause))
    → low / 2 ≡ high
    → reported high bits ≡ reported low (none ∷ bits)
unfolding reported
skip low high bits shifted = ap (λ n. reported n bits) (sym shifted)

end : (low : ℕ) → [] ≡ reported low []
unfolding reported
end low = refl

-- The causes that are logged of an abort are those of the bits that are set in the register, the
-- lowest first.
pub handle_abort_i2c-reported : (source : ℕ) → handle_abort_i2c source ≡ reported source source_bits
unfolding handle_abort_i2c cause_bit
handle_abort_i2c-reported source =
    (logged source source (source / 2) _ _ _ (omega arith) (omega arith) (
      (logged source (source / 2) (source / 4) _ _ _ (omega arith) (omega arith) (
        (logged source (source / 4) (source / 8) _ _ _ (omega arith) (omega arith) (
          (logged source (source / 8) (source / 16) _ _ _ (omega arith) (omega arith) (
            (logged source (source / 16) (source / 32) _ _ _ (omega arith) (omega arith) (
              (logged source (source / 32) (source / 64) _ _ _ (omega arith) (omega arith) (
                ((logged source (source / 128) (source / 256) _ _ _ (omega arith) (omega arith) (
                    ((logged source (source / 512) (source / 1024) _ _ _ (omega arith) (omega arith)
                        ((logged source (source / 1024) (source / 2048) _ _ _ (omega arith)
                          (omega arith)
                          ((logged source (source / 2048) (source / 4096) _ _ _ (omega arith)
                            (omega arith)
                            ((logged source (source / 4096) (source / 8192) _ _ _ (omega arith)
                              (omega arith) (end (source / 8192)))))))))
                      ∙ skip (source / 256) (source / 512) _ (omega arith))))
                  ∙ skip (source / 64) (source / 128) _ (omega arith))))))))))))))
