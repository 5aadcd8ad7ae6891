-- ===== src/Driver/Receive/Slots.antt =====
-- Where the bytes of a transfer belong: the addresses of the buffers of the messages that read, in
-- order, independent of how `readFromBus` splits them; and the bytes that a trace has received.
use voodoo_i2c.Base.{
  ℕ, zero, suc, ◌+◌, ◌≡◌, refl, ap, sym, ◌∙◌, List, [], ◌∷◌, ◌++◌, ◌==◌, if◌then◌else◌, length,
  arith, drop, append_assoc, length-append, append-nil,
}
use voodoo_i2c.Base.Bits.{test_bit}
use voodoo_i2c.Base.Int.{ℤ, pos, ◌-ℤ◌, int_laws}
use voodoo_i2c.Registers.{Access, reads, writes}
use voodoo_i2c.Driver.Constants.{dw_ic_data_cmd, i2c_m_rd, read_in_progress}
use voodoo_i2c.Driver.Types.{Message, BusDevice, Memory, store_byte}

-- The values read from the command register, oldest first.
abbrev pub received : List Access → List ℕ
received [] = []
received (reads offset value ∷ t) =
    if offset == dw_ic_data_cmd then received t ++ value ∷ [] else received t
received (writes offset value ∷ t) = received t

abbrev pub addresses : ℕ → ℕ → List ℕ
addresses a zero = []
addresses a (suc n) = a ∷ addresses (a + 1) n

abbrev pub slots_of : List Message → List ℕ
slots_of [] = []
slots_of (m ∷ ms) =
    if test_bit m.flags i2c_m_rd then addresses m.buffer m.length ++ slots_of ms else slots_of ms

-- The first message that reads may be under way.
abbrev pub resumed : BusDevice → List Message → List ℕ
resumed b [] = []
resumed b (m ∷ ms) =
    if test_bit m.flags i2c_m_rd
    then addresses b.receive_buffer b.receive_buffer_length ++ slots_of ms
    else resumed b ms

abbrev pub slots_left : BusDevice → List Message → List ℕ
slots_left b ms = if test_bit b.status read_in_progress then resumed b ms else slots_of ms

abbrev pub slots : BusDevice → List ℕ
slots b = slots_left b (drop b.message_read_index b.messages)

-- The bytes stored one by one.
abbrev pub store_all : Memory → List ℕ → List ℕ → Memory
store_all memory [] bytes = memory
store_all memory (a ∷ at) [] = memory
store_all memory (a ∷ at) (v ∷ vs) = store_all (store_byte memory a v) at vs

-- What the receiving side is about: the slots left, the bytes so far, memory, and the bytes awaited.
pub record Rx : Type 0 where
  pub left : List ℕ
  pub bytes : List ℕ
  pub memory : Memory
  pub outstanding : ℤ

-- Some bytes came in and went to the first slots, one each.
pub record Moves (x y : Rx) : Type 0 where
  pub used : List ℕ
  pub came : List ℕ
  pub slots_split : x.left ≡ used ++ y.left
  pub bytes_grow : y.bytes ≡ x.bytes ++ came
  pub one_each : length used ≡ length came
  pub stored : y.memory ≡ store_all x.memory used came
  pub counted : y.outstanding ≡ x.outstanding -ℤ pos (length came)

pub store_all-append :
    (memory : Memory) (at bs vs ws : List ℕ)
    → length at ≡ length vs
    → store_all memory (at ++ bs) (vs ++ ws) ≡ store_all (store_all memory at vs) bs ws
store_all-append memory [] bs [] ws e = refl
store_all-append memory [] bs (v ∷ vs) ws e = absurd (omega arith)
store_all-append memory (a ∷ at) bs [] ws e = absurd (omega arith)
store_all-append memory (a ∷ at) bs (v ∷ vs) ws e =
    store_all-append (store_byte memory a v) at bs vs ws (omega arith)

sub_twice : (a : ℤ) (m n : ℕ) → a -ℤ pos m -ℤ pos n ≡ a -ℤ pos (m + n)
sub_twice a m n = omega int_laws

pub Moves-refl : (x : Rx) → Moves x x
Moves-refl x = record {
  used = [];
  came = [];
  slots_split = refl;
  bytes_grow = sym (append-nil x.bytes);
  one_each = refl;
  stored = refl;
  counted = omega int_laws;
}

pub Moves-trans : {x y z : Rx} → Moves x y → Moves y z → Moves x z
Moves-trans {x} {y} {z} p q = record {
  used = p.used ++ q.used;
  came = p.came ++ q.came;
  slots_split =
      p.slots_split ∙ ap (λ t. p.used ++ t) q.slots_split ∙ sym (append_assoc p.used q.used z.left);
  bytes_grow =
      q.bytes_grow ∙ ap (λ t. t ++ q.came) p.bytes_grow ∙ append_assoc x.bytes p.came q.came;
  one_each =
      omega
        (arith, length-append p.used q.used, length-append p.came q.came, p.one_each, q.one_each);
  stored =
      q.stored
      ∙ ap (λ t. store_all t q.used q.came) p.stored
      ∙ sym (store_all-append x.memory p.used q.used p.came q.came p.one_each);
  counted =
      q.counted
      ∙ ap (λ t. t -ℤ pos (length q.came)) p.counted
      ∙ sub_twice x.outstanding (length p.came) (length q.came)
      ∙ ap (λ t. x.outstanding -ℤ pos t) (sym (length-append p.came q.came));
}
