-- ===== src/Driver/Abort.antt =====
-- `handleAbortI2C`: what is logged of an aborted transfer, in the order of the lines. The first line
-- and the last, which are always logged, are left out.
pub mod Laws
use voodoo_i2c.Base.{ℕ, Bool, List, [], ◌∷◌, if◌then◌else◌}
use voodoo_i2c.Base.Bits.{test_bit}

-- The bits of DW_IC_TX_ABRT_SOURCE, in the order of the tests.
pub data Cause : Type 0 where
  addr_noack_7b addr1_noack_10 addr2_noack_10 txdata_noack gcall_noack gcall_read : Cause
  sbyte_ackdet sbyte_norstrt rd_norstrt_10b master_dis arb_lost : Cause

pub cause_bit : Cause → ℕ
cause_bit addr_noack_7b = 0
cause_bit addr1_noack_10 = 1
cause_bit addr2_noack_10 = 2
cause_bit txdata_noack = 3
cause_bit gcall_noack = 4
cause_bit gcall_read = 5
cause_bit sbyte_ackdet = 7
cause_bit sbyte_norstrt = 9
cause_bit rd_norstrt_10b = 10
cause_bit master_dis = 11
cause_bit arb_lost = 12

pub log_if : ℕ → Cause → List Cause → List Cause
log_if source cause rest = if test_bit source (cause_bit cause) then cause ∷ rest else rest

pub handle_abort_i2c : ℕ → List Cause
handle_abort_i2c source = log_if source addr_noack_7b (
    log_if source addr1_noack_10 (
      log_if source addr2_noack_10 (
        log_if source txdata_noack (
          log_if source gcall_noack (
            log_if source gcall_read (
              log_if source sbyte_ackdet (
                log_if source sbyte_norstrt (
                  log_if source rd_norstrt_10b
                    (log_if source master_dis (log_if source arb_lost []))))))))))
