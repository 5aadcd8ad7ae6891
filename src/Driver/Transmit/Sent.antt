-- ===== src/Driver/Transmit/Sent.antt =====
-- The loop over one message's bytes keeps the stream: what it has sent, followed by what is left.
use mathlib.Core.List.{map-append}
use Prim.Native.Nat.{bit_or}
use voodoo_i2c.Base.{
  ℕ, zero, suc, ◌+◌, ◌%◌, ◌<◌, ◌≡◌, refl, ap, sym, ◌∙◌, Bool, true, false, List, [], ◌∷◌, ◌++◌, map,
  if◌then◌else◌, arith, append_assoc, length, length-replicate, Bool-cases, inl, inr,
}
use voodoo_i2c.Base.Bits.{set_bit}
use voodoo_i2c.Base.Words.{u32}
use voodoo_i2c.Registers.{Port, write_register}
use voodoo_i2c.Registers.Laws.{IsMapped, write_mapped, write_IsMapped}
use voodoo_i2c.Driver.Constants.{dw_ic_data_cmd}
use voodoo_i2c.Driver.Types.{Memory}
use voodoo_i2c.Driver.Transmit.{
  Fill, command_bits, request_byte, send_byte, fill_fifo, has_room, may_request,
}
use voodoo_i2c.Driver.Transmit.Words.{
  sent, plain, with_stop, with_restart, bare, bit_or-command_bits,
}

-- The first word of what is left.
abbrev pub head_word : Memory → Bool → Bool → ℕ → Fill → ℕ
head_word memory last reading n s =
    if reading
    then set_bit (command_bits last n s.need_restart) 8
    else bit_or (command_bits last n s.need_restart) (memory s.buffer % 256)

abbrev pub left_words : Memory → Bool → Bool → ℕ → Fill → List ℕ
left_words memory last reading n s =
    with_restart s.need_restart (with_stop last (plain memory reading s.buffer n))

abbrev pub stream : Memory → Bool → Bool → ℕ × Fill → List ℕ
stream memory last reading r = sent r.1.port.trace ++ left_words memory last reading r.0 r.1

-- The marks of the first of the words `x ∷ xs` are the bits of its command.
words-cons :
    (last restart : Bool) (x n : ℕ) (xs : List ℕ)
    → length xs ≡ n
    → with_restart restart (with_stop last (x ∷ xs))
      ≡ (command_bits last (suc n) restart + x) ∷ with_stop last xs
words-cons last restart x n [] e = ground arith
words-cons last restart x n (y ∷ ys) e = ground arith

plain-cons :
    (memory : Memory) (reading : Bool) (a n : ℕ)
    → plain memory reading a (suc n)
      ≡ (if reading then 0x100 else memory a % 256)
        ∷ plain memory reading (if reading then a else a + 1) n
plain-cons memory true a n = refl
plain-cons memory false a n = refl

length-plain : (memory : Memory) (reading : Bool) (a n : ℕ) → length (plain memory reading a n) ≡ n
length-plain memory true a n = length-replicate n _
length-plain memory false a zero = refl
length-plain memory false a (suc n) = ap suc (length-plain memory false (a + 1) n)

sent-write :
    (w : ℕ) {p : Port} {address : ℕ} (t : List ℕ)
    → IsMapped p address
    → sent (write_register w dw_ic_data_cmd p).1.trace ++ t ≡ sent p.trace ++ u32 w ∷ t
sent-write w {p} t m =
    rw (write_mapped m w dw_ic_data_cmd) (append_assoc (sent p.trace) (u32 w ∷ []) t)

request_word :
    (last restart : Bool) (n : ℕ)
    → u32 (set_bit (command_bits last n restart) 8) ≡ command_bits last n restart + 0x100
request_word last restart n = ground arith

data_word :
    (last restart : Bool) (n x : ℕ)
    → x < 256
    → u32 (bit_or (command_bits last n restart) x) ≡ command_bits last n restart + x
data_word last restart n x h = ground (arith, bit_or-command_bits last n restart x h)

-- One round of the loop sends the first word of what is left.
pub request-stream :
    (memory : Memory) (last : Bool) (n : ℕ) (s : Fill) {address : ℕ}
    → IsMapped s.port address
    → stream memory last true (n, request_byte (command_bits last (suc n) s.need_restart) s)
      ≡ stream memory last true (suc n, s)
request-stream memory last n s m =
    sent-write _ _ m
    ∙ ap (◌++◌ (sent s.port.trace)) (
        ap (λ w. w ∷ with_stop last (plain memory true s.buffer n))
          (request_word last s.need_restart (suc n))
        ∙ sym (
            words-cons last s.need_restart 0x100 n (plain memory true s.buffer n)
              (length-plain memory true s.buffer n)))

pub send-stream :
    (memory : Memory) (last : Bool) (n : ℕ) (s : Fill) {address : ℕ}
    → IsMapped s.port address
    → stream memory last false (n, send_byte memory (command_bits last (suc n) s.need_restart) s)
      ≡ stream memory last false (suc n, s)
send-stream memory last n s m =
    sent-write _ _ m
    ∙ ap (◌++◌ (sent s.port.trace)) (
        ap (λ w. w ∷ with_stop last (plain memory false (s.buffer + 1) n))
          (data_word last s.need_restart (suc n) (memory s.buffer % 256) (omega arith))
        ∙ sym (
            words-cons last s.need_restart _ n (plain memory false (s.buffer + 1) n)
              (length-plain memory false (s.buffer + 1) n)))

pub map-bare-restart : (r : Bool) (xs : List ℕ) → map bare (with_restart r xs) ≡ map bare xs
map-bare-restart false xs = refl
map-bare-restart true [] = refl
map-bare-restart true (x ∷ xs) = ap (λ w. w ∷ map bare xs) (omega arith)

abbrev pub bare_stream : Memory → Bool → Bool → ℕ × Fill → List ℕ
bare_stream memory last reading r = map bare (stream memory last reading r)

-- Leaving the restart bit behind is no change but to that bit.
drop_restart :
    (memory : Memory) (last reading : Bool) (n : ℕ) (s : Fill)
    → bare_stream memory last reading (n, record s { need_restart = false })
      ≡ bare_stream memory last reading (n, s)
drop_restart memory last reading n s =
    simp map-append
      (rw (map-bare-restart s.need_restart (with_stop last (plain memory reading s.buffer n))))

pub fill_fifo-bare_stream :
    (memory : Memory) (last reading : Bool) (n : ℕ) (s : Fill) {address : ℕ}
    → IsMapped s.port address
    → bare_stream memory last reading (fill_fifo memory last reading n s)
      ≡ bare_stream memory last reading (n, s)
unfolding fill_fifo
fill_fifo-bare_stream memory last reading zero s m = refl
fill_fifo-bare_stream memory last true (suc n) s m = elim (Bool-cases (has_room s)) [
  | inl room ↦ rw room (elim (Bool-cases (may_request s)) [
    | inl more ↦ rw more (
        fill_fifo-bare_stream memory last true n
          (request_byte (command_bits last (suc n) s.need_restart) s) (write_IsMapped m _ _)
        ∙ ap (map bare) (request-stream memory last n s m))
    | inr full ↦ rw full (drop_restart memory last true (suc n) s)
  ])
  | inr full ↦ rw full refl
]
fill_fifo-bare_stream memory last false (suc n) s m = elim (Bool-cases (has_room s)) [
  | inl room ↦ rw room (
      fill_fifo-bare_stream memory last false n
        (send_byte memory (command_bits last (suc n) s.need_restart) s) (write_IsMapped m _ _)
      ∙ ap (map bare) (send-stream memory last n s m))
  | inr full ↦ rw full refl
]

pub fill_fifo-IsMapped :
    (memory : Memory) (last reading : Bool) (n : ℕ) (s : Fill) {address : ℕ}
    → IsMapped s.port address
    → IsMapped (fill_fifo memory last reading n s).1.port address
unfolding fill_fifo
fill_fifo-IsMapped memory last reading zero s m = m
fill_fifo-IsMapped memory last true (suc n) s m = elim (Bool-cases (has_room s)) [
  | inl room ↦ rw room (elim (Bool-cases (may_request s)) [
    | inl more ↦ rw more (
        fill_fifo-IsMapped memory last true n
          (request_byte (command_bits last (suc n) s.need_restart) s) (write_IsMapped m _ _))
    | inr full ↦ rw full m
  ])
  | inr full ↦ rw full m
]
fill_fifo-IsMapped memory last false (suc n) s m = elim (Bool-cases (has_room s)) [
  | inl room ↦ rw room (
      fill_fifo-IsMapped memory last false n
        (send_byte memory (command_bits last (suc n) s.need_restart) s) (write_IsMapped m _ _))
  | inr full ↦ rw full m
]
