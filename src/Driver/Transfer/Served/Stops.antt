-- ===== src/Driver/Transfer/Served/Stops.antt =====
-- How many stops are out, and how many are to come.
use voodoo_i2c.Base.{
  ℕ, zero, suc, ◌+◌, ◌%◌, ◌<◌, ◌≡◌, refl, ap, ◌∙◌, Bool, true, false, List, [], ◌∷◌, ◌++◌, map,
  length, if◌then◌else◌, ltb, ◌==◌, ◌&&◌, arith, Bool-cases, inl, inr,
}
use voodoo_i2c.Base.Bits.{test_bit}
use voodoo_i2c.Driver.Constants.{write_in_progress, con_restart_en}
use voodoo_i2c.Driver.Types.{Message, BusDevice, Memory}
use voodoo_i2c.Driver.Transmit.Words.{
  bare, bytes_from, mark_last, with_stop, with_restart, message_words, words_from, resumed,
  pending_of, is_read, plain,
}
use voodoo_i2c.Driver.Transmit.Refill.{Writes, IsUnderWay}
use voodoo_i2c.Driver.Transfer.Served.{stops}

pub stops-append : (xs ys : List ℕ) → stops (xs ++ ys) ≡ stops xs + stops ys
stops-append [] ys = omega arith
stops-append (x ∷ xs) ys = omega (arith, stops-append xs ys)

bare_stop : (w : ℕ) → test_bit (bare w) 9 ≡ test_bit w 9
bare_stop w = ground arith

pub stops-bare : (ws : List ℕ) → stops (map bare ws) ≡ stops ws
stops-bare [] = refl
stops-bare (w ∷ ws) = rw (bare_stop w, stops-bare ws) refl

stops-bytes_from : (memory : Memory) (a n : ℕ) → stops (bytes_from memory a n) ≡ 0
stops-bytes_from memory a zero = refl
stops-bytes_from memory a (suc n) =
    let byte : test_bit (memory a % 256) 9 ≡ false = ground arith in
    rw (byte) (omega (arith, stops-bytes_from memory (a + 1) n))

-- The mark of the last word is one stop.
stops-mark_last : (memory : Memory) (a n : ℕ) → stops (mark_last (bytes_from memory a (suc n))) ≡ 1
stops-mark_last memory a zero =
    let byte : test_bit (memory a % 256 + 0x200) 9 ≡ true = ground arith in rw (byte) refl
stops-mark_last memory a (suc n) =
    let byte : test_bit (memory a % 256) 9 ≡ false = ground arith in
    rw (byte) (omega (arith, stops-mark_last memory (a + 1) n))

stops-restart : (r : Bool) (ws : List ℕ) → stops (with_restart r ws) ≡ stops ws
stops-restart false ws = refl
stops-restart true [] = refl
stops-restart true (w ∷ ws) =
    let same : test_bit (w + 0x400) 9 ≡ test_bit w 9 = ground arith in rw (same) refl

-- What is left of a message that writes has a stop if it is the last.
stops-with_stop :
    (memory : Memory) (last reading : Bool) (a n : ℕ)
    → reading ≡ false
    → 0 < n
    → stops (with_stop last (plain memory reading a n)) ≡ (if last then 1 else 0)
stops-with_stop memory last true a n h k = absurd cc
stops-with_stop memory last false a zero h k = absurd (omega arith)
stops-with_stop memory true false a (suc n) h k = stops-mark_last memory a n
stops-with_stop memory false false a (suc n) h k = stops-bytes_from memory a (suc n)

-- One, where there is a message.
abbrev pub stop_of : List Message → ℕ
stop_of [] = 0
stop_of (m ∷ ms) = 1

last_iff :
    (i n : ℕ) (ms : List Message)
    → i + suc (length ms) ≡ n
    → (if i + 1 == n then 1 else 0) + stop_of ms ≡ 1
last_iff i n [] h = ground arith
last_iff i n (m ∷ ms) h = ground arith

stops-words_from :
    (address : ℕ) (memory : Memory) (r : Bool) (i n : ℕ) (ms : List Message)
    → Writes address ms
    → i + length ms ≡ n
    → stops (words_from memory r i n ms) ≡ stop_of ms
stops-words_from address memory r i n [] w h = refl
stops-words_from address memory r i n (m ∷ ms) (writing, same, some_bytes, w) h =
    stops-append (message_words memory r i n m) _
    ∙ ap (λ k. k + stops (words_from memory r (i + 1) n ms))
        (stops-restart (r && ltb 0 i) _
          ∙ stops-with_stop memory (i + 1 == n) (is_read m) m.buffer m.length writing some_bytes)
    ∙ ap (λ k. (if i + 1 == n then 1 else 0) + k)
        (stops-words_from address memory r (i + 1) n ms w (omega (arith, h)))
    ∙ last_iff i n ms h

-- The words to come have one stop, where there are any.
pub stops-pending :
    (address : ℕ) (memory : Memory) (b : BusDevice) (ms : List Message)
    → Writes address ms
    → IsUnderWay b
    → b.message_write_index + length ms ≡ b.message_number
    → stops (pending_of memory b ms) ≡ stop_of ms
stops-pending address memory b ms w under_way h =
    elim (Bool-cases (test_bit b.status write_in_progress)) [
      | inr idle ↦ rw (idle) (
          stops-words_from address memory (test_bit b.bus_config con_restart_en)
            b.message_write_index b.message_number ms w h)
      | inl going ↦ rw (going) (stops_resumed ms w h (under_way going))
    ]
  where
    stops_resumed :
        (ms : List Message)
        → Writes address ms
        → b.message_write_index + length ms ≡ b.message_number
        → 0 < b.transaction_buffer_length
        → stops (resumed memory b ms) ≡ stop_of ms
    stops_resumed [] w h k = refl
    stops_resumed (m ∷ ms) (writing, same, some_bytes, w) h k =
        stops-append _ _
        ∙ ap
            (λ x.
              x
              + stops (
                  words_from memory (test_bit b.bus_config con_restart_en)
                    (b.message_write_index + 1) b.message_number ms))
            (stops-with_stop memory (b.message_write_index + 1 == b.message_number) (is_read m)
              b.transaction_buffer b.transaction_buffer_length writing k)
        ∙ ap (λ x. (if b.message_write_index + 1 == b.message_number then 1 else 0) + x)
            (stops-words_from address memory (test_bit b.bus_config con_restart_en)
              (b.message_write_index + 1) b.message_number ms w (omega (arith, h)))
        ∙ last_iff b.message_write_index b.message_number ms h
