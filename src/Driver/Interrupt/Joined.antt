-- ===== src/Driver/Interrupt/Joined.antt =====
-- The two sides of a transfer together: what comes in does not disturb what goes out.

use voodoo_i2c.Base.{
  ℕ, ◌≡◌, refl, sym, ap, ◌∙◌, subst, List, [], ◌∷◌, ◌++◌, append-nil, append_assoc, length,
  length-append, ◌==◌, ==_iff, if◌then◌else◌, map, Bool-cases, inl, inr, if_both, arith,
}
use voodoo_i2c.Base.Bits.{test_bit}
use voodoo_i2c.Registers.{Chip}
use voodoo_i2c.Registers.Laws.{IsMapped}
use voodoo_i2c.Driver.Constants.{rx_full, tx_empty}
use voodoo_i2c.Driver.Types.{BusDevice, Driver, Memory, store_byte}
use voodoo_i2c.Driver.Receive.{read_from_bus}
use voodoo_i2c.Driver.Receive.Slots.{received, slots, store_all, store_all-append}
use voodoo_i2c.Driver.Receive.Moves.{read_from_bus-Moves, read_from_bus-IsMapped}
use voodoo_i2c.Driver.Receive.Frame.{read_from_bus-Untouched}
use voodoo_i2c.Driver.Receive.Beside.{read_from_bus-WriteSide}
use voodoo_i2c.Driver.Transmit.{transfer_message_to_bus}
use voodoo_i2c.Driver.Transmit.Words.{sent, bare, pending}
use voodoo_i2c.Driver.Transmit.Begun.{stream}
use voodoo_i2c.Driver.Transmit.Stream.{
  transfer_message_to_bus-stream, transfer_message_to_bus-IsMapped,
}
use voodoo_i2c.Driver.Transmit.Frame.{transfer_message_to_bus-Untouched}
use voodoo_i2c.Driver.Transmit.Beside.{transfer_message_to_bus-ReadSide}
use voodoo_i2c.Driver.Transmit.Sources.{sources, mem-right, pending_of-Agree}
use voodoo_i2c.Driver.Transmit.Shrinks.{transfer_message_to_bus-Shrinks}
use voodoo_i2c.Driver.Interrupt.{serve}
use voodoo_i2c.Driver.Interrupt.Sides.{SameWrite, SameRead, sources-same, pending-same, slots-same}
use mathlib.Core.List.{Memᴰ}

-- No byte that is still to be sent lies where a byte is still to be stored.
abbrev pub IsApart : BusDevice → Type 0
IsApart b = (a : ℕ) → Memᴰ a (slots b) → Memᴰ a (sources b) → ⊥

-- The words sent and to come are the same, but for the restart bits; the bytes that came in went to
-- the first slots, one each, and to no other address; the two kinds of buffer stay apart.
pub record Joined (d e : Driver) : Type 0 where
  pub words : stream e ≡ stream d
  pub used : List ℕ
  pub came : List ℕ
  pub slots_split : slots d.bus_device ≡ used ++ slots e.bus_device
  pub bytes_grow : received e.port.trace ≡ received d.port.trace ++ came
  pub one_each : length used ≡ length came
  pub stored : e.memory ≡ store_all d.memory used came
  pub apart : IsApart e.bus_device
  pub window : (base : ℕ) → IsMapped d.port base → IsMapped e.port base

pub Joined-refl : (d : Driver) → IsApart d.bus_device → Joined d d
Joined-refl d h = record {
  words = refl;
  used = [];
  came = [];
  slots_split = refl;
  bytes_grow = sym (append-nil _);
  one_each = refl;
  stored = refl;
  apart = h;
  window = λ base m. m;
}

pub Joined-trans : {c d e : Driver} → Joined c d → Joined d e → Joined c e
Joined-trans {c} {d} {e} p q = record {
  words = q.words ∙ p.words;
  used = p.used ++ q.used;
  came = p.came ++ q.came;
  slots_split =
      p.slots_split
      ∙ ap (λ t. p.used ++ t) q.slots_split
      ∙ sym (append_assoc p.used q.used (slots e.bus_device));
  bytes_grow =
      q.bytes_grow
      ∙ ap (λ t. t ++ q.came) p.bytes_grow
      ∙ append_assoc (received c.port.trace) p.came q.came;
  one_each =
      omega
        (arith, length-append p.used q.used, length-append p.came q.came, p.one_each, q.one_each);
  stored =
      q.stored
      ∙ ap (λ t. store_all t q.used q.came) p.stored
      ∙ sym (store_all-append c.memory p.used q.used p.came q.came p.one_each);
  apart = q.apart;
  window = λ base m. q.window base (p.window base m);
}

other_address :
    (memory : Memory) (a b v : ℕ) → (Memᴰ b (a ∷ []) → ⊥) → store_byte memory a v b ≡ memory b
other_address memory a b v ne = elim (Bool-cases (b == a)) [
  | inl e ↦ absurd (ne (Memᴰ.head ((==_iff b a).0 e)))
  | inr e ↦ rw (e) refl
]

store_all-elsewhere :
    (memory : Memory) (used came : List ℕ) (b : ℕ)
    → (Memᴰ b used → ⊥)
    → store_all memory used came b ≡ memory b
store_all-elsewhere memory [] came b out = refl
store_all-elsewhere memory (a ∷ used) [] b out = refl
store_all-elsewhere memory (a ∷ used) (v ∷ came) b out =
    store_all-elsewhere (store_byte memory a v) used came b (λ m. out (Memᴰ.tail m))
    ∙ other_address memory a b v (λ m. out (head_only m))
  where
    head_only : Memᴰ b (a ∷ []) → Memᴰ b (a ∷ used)
    head_only (Memᴰ.head e) = Memᴰ.head e
    head_only (Memᴰ.tail m) = elim m [ ]

mem-first : (a : ℕ) (xs ys : List ℕ) → Memᴰ a xs → Memᴰ a (xs ++ ys)
mem-first a [] ys m = elim m [ ]
mem-first a (x ∷ xs) ys (Memᴰ.head e) = Memᴰ.head e
mem-first a (x ∷ xs) ys (Memᴰ.tail m) = Memᴰ.tail (mem-first a xs ys m)

module _ (chip : Chip) (d : Driver) where
  same_write : SameWrite d.bus_device (read_from_bus chip d).bus_device
  same_write =
      let w = read_from_bus-WriteSide chip d in
      let u = read_from_bus-Untouched chip d in
      record {
        writing = w.writing;
        index = w.index;
        buffer = w.buffer;
        buffer_length = w.buffer_length;
        messages = u.device.messages;
        number = u.device.message_number;
        config = u.device.bus_config;
      }

  read_from_bus-Joined :
      {base : ℕ} → IsMapped d.port base → IsApart d.bus_device → Joined d (read_from_bus chip d)
  read_from_bus-Joined mp apart =
      let moves = read_from_bus-Moves chip d mp in
      let w = read_from_bus-WriteSide chip d in
      let kept : (a : ℕ)
          → Memᴰ a (sources d.bus_device)
          → (read_from_bus chip d).memory a ≡ d.memory a =
        λ a m.
          ap (λ f. f a) moves.stored
          ∙ store_all-elsewhere d.memory moves.used moves.came a (λ k.
            apart a (subst (λ t. Memᴰ a t) (sym moves.slots_split) (mem-first a moves.used _ k))
              m) in
      record {
        words = ap (map bare) (
            ap (λ t. t ++ pending (read_from_bus chip d).memory (read_from_bus chip d).bus_device)
              w.words
            ∙ ap (λ t. sent d.port.trace ++ t)
                (pending-same same_write (read_from_bus chip d).memory
                  ∙ pending_of-Agree d.memory (read_from_bus chip d).memory d.bus_device _ kept));
        used = moves.used;
        came = moves.came;
        slots_split = moves.slots_split;
        bytes_grow = moves.bytes_grow;
        one_each = moves.one_each;
        stored = moves.stored;
        window = λ base m. read_from_bus-IsMapped chip d m;
        apart = λ a m k.
            apart a (subst (λ t. Memᴰ a t) (sym moves.slots_split) (mem-right a moves.used _ m))
              (subst (λ t. Memᴰ a t) (sources-same same_write) k);
      }

  same_read : SameRead d.bus_device (transfer_message_to_bus chip d).bus_device
  same_read =
      let r = transfer_message_to_bus-ReadSide chip d in
      let u = transfer_message_to_bus-Untouched chip d in
      record {
        reading = r.reading;
        index = r.index;
        buffer = r.buffer;
        buffer_length = r.buffer_length;
        messages = u.device.messages;
      }

  transfer_message_to_bus-Joined :
      {base : ℕ}
      → IsMapped d.port base
      → IsApart d.bus_device
      → Joined d (transfer_message_to_bus chip d)
  transfer_message_to_bus-Joined mp apart =
      let r = transfer_message_to_bus-ReadSide chip d in
      let shrunk = transfer_message_to_bus-Shrinks chip d in
      record {
        words = transfer_message_to_bus-stream chip d mp;
        used = [];
        came = [];
        slots_split = sym (slots-same same_read);
        bytes_grow = r.bytes ∙ sym (append-nil _);
        one_each = refl;
        stored = r.memory;
        window = λ base m. transfer_message_to_bus-IsMapped chip d m;
        apart = λ a m k.
            apart a (subst (λ t. Memᴰ a t) (slots-same same_read) m)
              (subst (λ t. Memᴰ a t) (sym shrunk.split) (mem-right a shrunk.gone _ k));
      }

module _ (chip : Chip) (d : Driver) where
  -- What an interrupt does for the bits of its status, but for an abort.
  pub serve-Joined :
      (status : ℕ) {base : ℕ}
      → IsMapped d.port base
      → IsApart d.bus_device
      → Joined d (serve chip status d)
  unfolding serve
  serve-Joined status {base} mp apart =
      let received = if test_bit status rx_full then read_from_bus chip d else d in
      let first =
        if_both {A = Driver} (Joined d) (test_bit status rx_full)
          (read_from_bus-Joined chip d mp apart) (Joined-refl d apart) in
      if_both {A = Driver} (Joined d) (test_bit status tx_empty)
        (Joined-trans first
          (transfer_message_to_bus-Joined chip received (first.window base mp) first.apart))
        first
