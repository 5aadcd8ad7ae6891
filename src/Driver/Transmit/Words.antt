-- ===== src/Driver/Transmit/Words.antt =====
-- The words that a list of messages stands for on the command register, independent of how
-- `transferMessageToBus` splits them, and those that a trace of accesses has sent.
use Prim.Native.Nat.{bit_or}
use voodoo_i2c.Base.{
  ℕ, zero, suc, ◌+◌, ◌%◌, ◌<◌, ◌≡◌, refl, Bool, true, false, ◌&&◌, List, [], ◌∷◌, ◌++◌, ◌==◌,
  ==_iff, ltb, if◌then◌else◌, drop, replicate, arith,
}
use voodoo_i2c.Base.Bits.{test_bit, all_below, all_below_at}
use voodoo_i2c.Registers.{Access, reads, writes}
use voodoo_i2c.Driver.Constants.{dw_ic_data_cmd, i2c_m_rd, write_in_progress, con_restart_en}
use voodoo_i2c.Driver.Types.{Message, BusDevice, Memory}
use voodoo_i2c.Driver.Transmit.{command_bits}

-- The words written to the command register, oldest first.
abbrev pub sent : List Access → List ℕ
sent [] = []
sent (reads offset value ∷ t) = sent t
sent (writes offset value ∷ t) = if offset == dw_ic_data_cmd then sent t ++ value ∷ [] else sent t

abbrev pub bytes_from : Memory → ℕ → ℕ → List ℕ
bytes_from memory a zero = []
bytes_from memory a (suc n) = (memory a % 256) ∷ bytes_from memory (a + 1) n

-- A read asks for each byte by the word 0x100.
abbrev pub plain : Memory → Bool → ℕ → ℕ → List ℕ
plain memory true a n = replicate n 0x100
plain memory false a n = bytes_from memory a n

abbrev pub mark_last : List ℕ → List ℕ
mark_last [] = []
mark_last (x ∷ []) = (x + 0x200) ∷ []
mark_last (x ∷ y ∷ zs) = x ∷ mark_last (y ∷ zs)

abbrev pub mark_first : List ℕ → List ℕ
mark_first [] = []
mark_first (x ∷ xs) = (x + 0x400) ∷ xs

abbrev pub with_stop : Bool → List ℕ → List ℕ
with_stop true xs = mark_last xs
with_stop false xs = xs

abbrev pub with_restart : Bool → List ℕ → List ℕ
with_restart true xs = mark_first xs
with_restart false xs = xs

abbrev pub is_read : Message → Bool
is_read m = test_bit m.flags i2c_m_rd

-- Message `i` of `n`: a restart before each but the first, a stop behind the last.
abbrev pub message_words : Memory → Bool → ℕ → ℕ → Message → List ℕ
message_words memory restart_en i n m =
    with_restart (restart_en && ltb 0 i)
      (with_stop (i + 1 == n) (plain memory (is_read m) m.buffer m.length))

abbrev pub words_from : Memory → Bool → ℕ → ℕ → List Message → List ℕ
words_from memory restart_en i n [] = []
words_from memory restart_en i n (m ∷ ms) =
    message_words memory restart_en i n m ++ words_from memory restart_en (i + 1) n ms

-- What is left of the message under way, with the messages behind it.
abbrev pub resumed : Memory → BusDevice → List Message → List ℕ
resumed memory b [] = []
resumed memory b (m ∷ ms) =
    with_stop (b.message_write_index + 1 == b.message_number)
      (plain memory (is_read m) b.transaction_buffer b.transaction_buffer_length)
    ++ words_from memory (test_bit b.bus_config con_restart_en) (b.message_write_index + 1)
        b.message_number ms

-- The words that are still to be sent of the messages from the index on.
abbrev pub pending_of : Memory → BusDevice → List Message → List ℕ
pending_of memory b ms =
    if test_bit b.status write_in_progress
    then resumed memory b ms
    else words_from memory (test_bit b.bus_config con_restart_en) b.message_write_index
        b.message_number ms

abbrev pub pending : Memory → BusDevice → List ℕ
pending memory b = pending_of memory b (drop b.message_write_index b.messages)

-- A word without its restart bit, which is the highest.
abbrev pub bare : ℕ → ℕ
bare w = w % 0x400

or_table : all_below 256 (λ x. bit_or 0 x == x) ≡ true
unfolding all_below
or_table = refl

or_table_stop : all_below 256 (λ x. bit_or 0x200 x == 0x200 + x) ≡ true
unfolding all_below
or_table_stop = refl

or_table_restart : all_below 256 (λ x. bit_or 0x400 x == 0x400 + x) ≡ true
unfolding all_below
or_table_restart = refl

or_table_both : all_below 256 (λ x. bit_or 0x600 x == 0x600 + x) ≡ true
unfolding all_below
or_table_both = refl

-- The bits of a command and the byte do not meet.
pub bit_or-command_bits :
    (last : Bool) (n : ℕ) (restart : Bool) (x : ℕ)
    → x < 256
    → bit_or (command_bits last n restart) x ≡ command_bits last n restart + x
bit_or-command_bits last n restart x h = ground (
  arith,
  (==_iff _ x).0 (all_below_at 256 _ x h or_table),
  (==_iff _ (0x200 + x)).0 (all_below_at 256 _ x h or_table_stop),
  (==_iff _ (0x400 + x)).0 (all_below_at 256 _ x h or_table_restart),
  (==_iff _ (0x600 + x)).0 (all_below_at 256 _ x h or_table_both),
)
