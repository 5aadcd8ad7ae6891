-- ===== src/Driver/Transmit/Sources.antt =====
-- The addresses of the bytes that are still to be sent.

use voodoo_i2c.Base.{
  ℕ, zero, suc, ◌+◌, ◌≡◌, refl, Bool, true, false, List, [], ◌∷◌, ◌++◌, if◌then◌else◌, drop,
}
use voodoo_i2c.Base.Bits.{test_bit}
use voodoo_i2c.Driver.Constants.{write_in_progress, con_restart_en}
use voodoo_i2c.Driver.Types.{Message, BusDevice, Memory}
use voodoo_i2c.Driver.Receive.Slots.{addresses}
use voodoo_i2c.Driver.Transmit.Words.{bytes_from, plain, is_read, words_from, resumed, pending_of}
use mathlib.Core.List.{Memᴰ}

-- A message that writes n bytes from the address a on, and one that reads.
abbrev pub span : Bool → ℕ → ℕ → List ℕ
span true a n = []
span false a n = addresses a n

abbrev pub sources_of : List Message → List ℕ
sources_of [] = []
sources_of (m ∷ ms) = span (is_read m) m.buffer m.length ++ sources_of ms

abbrev pub sources_resumed : BusDevice → List Message → List ℕ
sources_resumed b [] = []
sources_resumed b (m ∷ ms) =
    span (is_read m) b.transaction_buffer b.transaction_buffer_length ++ sources_of ms

abbrev pub sources_left : BusDevice → List Message → List ℕ
sources_left b ms =
    if test_bit b.status write_in_progress then sources_resumed b ms else sources_of ms

abbrev pub sources : BusDevice → List ℕ
sources b = sources_left b (drop b.message_write_index b.messages)

-- Two memories with the same bytes at the addresses.
abbrev pub Agree : Memory → Memory → List ℕ → Type 0
Agree memory memory' at = (a : ℕ) → Memᴰ a at → memory' a ≡ memory a

mem-left : (a : ℕ) (xs ys : List ℕ) → Memᴰ a xs → Memᴰ a (xs ++ ys)
mem-left a [] ys m = elim m [ ]
mem-left a (x ∷ xs) ys (Memᴰ.head e) = Memᴰ.head e
mem-left a (x ∷ xs) ys (Memᴰ.tail m) = Memᴰ.tail (mem-left a xs ys m)

pub mem-right : (a : ℕ) (xs ys : List ℕ) → Memᴰ a ys → Memᴰ a (xs ++ ys)
mem-right a [] ys m = m
mem-right a (x ∷ xs) ys m = Memᴰ.tail (mem-right a xs ys m)

module _ (memory memory' : Memory) where
  bytes_from-Agree :
      (a n : ℕ)
      → Agree memory memory' (addresses a n)
      → bytes_from memory' a n ≡ bytes_from memory a n
  bytes_from-Agree a zero h = refl
  bytes_from-Agree a (suc n) h =
      rw (h a (Memᴰ.head refl), bytes_from-Agree (a + 1) n (λ b m. h b (Memᴰ.tail m))) refl

  plain-Agree :
      (reading : Bool) (a n : ℕ)
      → Agree memory memory' (span reading a n)
      → plain memory' reading a n ≡ plain memory reading a n
  plain-Agree true a n h = refl
  plain-Agree false a n h = bytes_from-Agree a n h

  words_from-Agree :
      (restart_en : Bool) (i n : ℕ) (ms : List Message)
      → Agree memory memory' (sources_of ms)
      → words_from memory' restart_en i n ms ≡ words_from memory restart_en i n ms
  words_from-Agree restart_en i n [] h = refl
  words_from-Agree restart_en i n (m ∷ ms) h =
      rw
        (
          plain-Agree (is_read m) m.buffer m.length (λ a k. h a (mem-left a _ _ k)),
          words_from-Agree restart_en (i + 1) n ms
              (λ a k. h a (mem-right a (span (is_read m) m.buffer m.length) _ k)),
        )
        refl

  resumed-Agree :
      (b : BusDevice) (ms : List Message)
      → Agree memory memory' (sources_resumed b ms)
      → resumed memory' b ms ≡ resumed memory b ms
  resumed-Agree b [] h = refl
  resumed-Agree b (m ∷ ms) h =
      rw
        (
          plain-Agree (is_read m) b.transaction_buffer b.transaction_buffer_length
              (λ a k. h a (mem-left a _ _ k)),
          words_from-Agree (test_bit b.bus_config con_restart_en) (b.message_write_index + 1)
              b.message_number ms
              (λ a k. h a (
                mem-right a (span (is_read m) b.transaction_buffer b.transaction_buffer_length) _
                  k)),
        )
        refl

  -- The words to come depend on memory only through the bytes that are still to be sent.
  pub pending_of-Agree :
      (b : BusDevice) (ms : List Message)
      → Agree memory memory' (sources_left b ms)
      → pending_of memory' b ms ≡ pending_of memory b ms
  pending_of-Agree b ms h = by_status (test_bit b.status write_in_progress) h
    where
      by_status :
          (going : Bool)
          → Agree memory memory' (if going then sources_resumed b ms else sources_of ms)
          → (if going
              then resumed memory' b ms
              else words_from memory'
                  (test_bit b.bus_config con_restart_en)
                  b.message_write_index
                  b.message_number
                  ms)
            ≡ (if going
                then resumed memory b ms
                else words_from memory
                    (test_bit b.bus_config con_restart_en)
                    b.message_write_index
                    b.message_number
                    ms)
      by_status true k = resumed-Agree b ms k
      by_status false k = words_from-Agree _ _ _ ms k
