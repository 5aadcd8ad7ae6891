-- ===== src/Driver/Transfer/Served/Settings.antt =====
-- The settings of the block behind the request: enabled, with the address of the first message, and
-- with the interrupts unmasked.
use voodoo_i2c.Base.{ℕ, zero, suc, ◌≡◌, refl, ◌∙◌, false, ◌==◌, if_both, if◌then◌else◌}
use Prim.Native.Nat.{bit_or}
use voodoo_i2c.Base.Words.{u32}
use voodoo_i2c.Base.Bits.{test_bit}
use voodoo_i2c.Registers.{Chip, Port, read_register, write_register}
use voodoo_i2c.Registers.Laws.{IsMapped, read_IsMapped, write_IsMapped}
use voodoo_i2c.Driver.Constants.{
  dw_ic_enable, dw_ic_enable_status, dw_ic_tar, dw_ic_intr_mask, dw_ic_clr_intr, i2c_m_ten,
}
use voodoo_i2c.Driver.Types.{IoReturn, BusState, to_word, Message, BusDevice}
use voodoo_i2c.Driver.Bus.{toggle_loop, toggle_bus_state, toggle_interrupts}
use voodoo_i2c.Driver.Bus.Aside.{toggle_bus_state-KeepsAside}
use voodoo_i2c.Driver.Transfer.{quiesce, set_address_mode, request_message, target}
use voodoo_i2c.Driver.Transfer.Steps.{quiesce-KeepsAside, set_address_mode-KeepsAside}
use voodoo_i2c.Driver.Transfer.Served.{last_write, stops_since, HasSettings}
use voodoo_i2c.Driver.Transfer.Served.Trace.{last-read, last-write, since-read, since-write}
use voodoo_i2c.Driver.Transfer.Served.Calm.{aside-IsMapped}

-- The value for DW_IC_TAR.
abbrev pub target_of : Message → ℕ
target_of m = u32 (bit_or m.address (target (test_bit m.flags i2c_m_ten)))

module _ (chip : Chip) where
  -- One poll of the loop: the value is written, and the status read.
  once-last :
      (value offset : ℕ) {p : Port} {base : ℕ}
      → IsMapped p base
      → last_write offset
          (read_register chip dw_ic_enable_status (write_register value dw_ic_enable p).1).1.trace
        ≡ (if dw_ic_enable == offset then u32 value else last_write offset p.trace)
  once-last value offset m =
      last-read (write_IsMapped m value dw_ic_enable) chip dw_ic_enable_status offset
      ∙ last-write m value dw_ic_enable offset

  once-IsMapped :
      (value : ℕ) {p : Port} {base : ℕ}
      → IsMapped p base
      → IsMapped
          (read_register chip dw_ic_enable_status (write_register value dw_ic_enable p).1).1
          base
  once-IsMapped value m =
      read_IsMapped (write_IsMapped m value dw_ic_enable) chip dw_ic_enable_status

  toggle_loop-enabled :
      (state : BusState) (n : ℕ) (p : Port) {base : ℕ}
      → IsMapped p base
      → last_write dw_ic_enable (toggle_loop chip state n p).1.trace ≡ u32 (to_word state)
  unfolding toggle_loop
  toggle_loop-enabled state zero p m =
      let once = once-last (to_word state) dw_ic_enable m in
      if_both {A = IoReturn × Port} (λ r. last_write dw_ic_enable r.1.trace ≡ u32 (to_word state))
        (_ == to_word state) once once
  toggle_loop-enabled state (suc n) p m =
      let once = once-last (to_word state) dw_ic_enable m in
      if_both {A = IoReturn × Port} (λ r. last_write dw_ic_enable r.1.trace ≡ u32 (to_word state))
        (_ == to_word state) once (toggle_loop-enabled state n _ (once-IsMapped (to_word state) m))

  toggle_loop-last :
      (offset : ℕ) (state : BusState) (n : ℕ) (p : Port) {base : ℕ}
      → IsMapped p base
      → (dw_ic_enable == offset) ≡ false
      → last_write offset (toggle_loop chip state n p).1.trace ≡ last_write offset p.trace
  unfolding toggle_loop
  toggle_loop-last offset state zero p m ne =
      let once = once-last (to_word state) offset m ∙ rw ne refl in
      if_both {A = IoReturn × Port} (λ r. last_write offset r.1.trace ≡ last_write offset p.trace)
        (_ == to_word state) once once
  toggle_loop-last offset state (suc n) p m ne =
      let once = once-last (to_word state) offset m ∙ rw ne refl in
      if_both {A = IoReturn × Port} (λ r. last_write offset r.1.trace ≡ last_write offset p.trace)
        (_ == to_word state) once
        (toggle_loop-last offset state n _ (once-IsMapped (to_word state) m) ne ∙ once)

  pub toggle_bus_state-target :
      (state : BusState) (p : Port) {base : ℕ}
      → IsMapped p base
      → last_write dw_ic_tar (toggle_bus_state chip state p).1.trace ≡ last_write dw_ic_tar p.trace
  unfolding toggle_bus_state
  toggle_bus_state-target state p m = toggle_loop-last dw_ic_tar state 1000 p m refl

  toggle_bus_state-enabled :
      (state : BusState) (p : Port) {base : ℕ}
      → IsMapped p base
      → last_write dw_ic_enable (toggle_bus_state chip state p).1.trace ≡ u32 (to_word state)
  unfolding toggle_bus_state
  toggle_bus_state-enabled state p m = toggle_loop-enabled state 1000 p m

  pub request_message-HasSettings :
      (b : BusDevice) (m : Message) (p : Port) {base : ℕ}
      → IsMapped p base
      → HasSettings (target_of m) 0x254 (request_message chip b m p).1
        × (stops_since (request_message chip b m p).1.trace ≡ 0)
  unfolding request_message toggle_interrupts
  request_message-HasSettings b m p mp =
      let ten = test_bit m.flags i2c_m_ten in
      let p₁ = (quiesce chip b p).1 in
      let m₁ = aside-IsMapped mp (quiesce-KeepsAside chip b p) in
      let p₂ = (set_address_mode chip ten p₁).1 in
      let m₂ = aside-IsMapped m₁ (set_address_mode-KeepsAside chip ten p₁) in
      let address = bit_or m.address (target ten) in
      let p₃ = (write_register address dw_ic_tar p₂).1 in
      let m₃ = write_IsMapped m₂ address dw_ic_tar in
      let p₄ = (write_register 0 dw_ic_intr_mask p₃).1 in
      let m₄ = write_IsMapped m₃ 0 dw_ic_intr_mask in
      let p₅ = (toggle_bus_state chip BusState.on p₄).1 in
      let m₅ = aside-IsMapped m₄ (toggle_bus_state-KeepsAside chip BusState.on p₄) in
      let p₆ = (read_register chip dw_ic_enable_status p₅).1 in
      let m₆ = read_IsMapped m₅ chip dw_ic_enable_status in
      let m₇ = read_IsMapped m₆ chip dw_ic_clr_intr in
      let after = λ (offset : ℕ).
        last-read m₆ chip dw_ic_clr_intr offset ∙ last-read m₅ chip dw_ic_enable_status offset in
      (
        record {
          enabled =
              last-write m₇ 0x254 dw_ic_intr_mask dw_ic_enable
              ∙ after dw_ic_enable
              ∙ toggle_bus_state-enabled BusState.on p₄ m₄;
          target_set =
              last-write m₇ 0x254 dw_ic_intr_mask dw_ic_tar
              ∙ after dw_ic_tar
              ∙ toggle_bus_state-target BusState.on p₄ m₄
              ∙ last-write m₃ 0 dw_ic_intr_mask dw_ic_tar
              ∙ last-write m₂ address dw_ic_tar dw_ic_tar;
          mask_set = last-write m₇ 0x254 dw_ic_intr_mask dw_ic_intr_mask;
        },
        since-write m₇ 0x254 dw_ic_intr_mask refl ∙ since-read m₆ chip dw_ic_clr_intr,
      )
