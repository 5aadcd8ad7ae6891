-- ===== src/Driver/Interrupt/Beside.antt =====
-- Changes of the driver beside the transfer.

use voodoo_i2c.Base.{◌≡◌, refl, sym, ap, ◌∙◌, subst, ◌++◌, append-nil, map}
use voodoo_i2c.Driver.Types.{BusDevice, Driver}
use voodoo_i2c.Driver.Transmit.Words.{sent, bare, pending}
use voodoo_i2c.Driver.Interrupt.Sides.{SameWrite, SameRead, sources-same, pending-same, slots-same}
use voodoo_i2c.Driver.Interrupt.Aside.{IsAside}
use voodoo_i2c.Driver.Interrupt.Joined.{IsApart, Joined}
use mathlib.Core.List.{[], Memᴰ}

-- Where only fields beside the transfer change.
pub record IsBeside (d e : Driver) : Type 0 where
  pub port : IsAside d.port e.port
  pub write : SameWrite d.bus_device e.bus_device
  pub read : SameRead d.bus_device e.bus_device
  pub memory : e.memory ≡ d.memory

pub beside-Joined : {d e : Driver} → IsBeside d e → IsApart d.bus_device → Joined d e
beside-Joined {d} {e} s apart = record {
  words = ap (map bare) (
      ap (λ t. t ++ pending e.memory e.bus_device) s.port.words
      ∙ ap (λ t. sent d.port.trace ++ t)
          (pending-same s.write e.memory ∙ ap (λ m. pending m d.bus_device) s.memory));
  used = [];
  came = [];
  slots_split = sym (slots-same s.read);
  bytes_grow = s.port.bytes ∙ sym (append-nil _);
  one_each = refl;
  stored = s.memory;
  apart = λ a m k.
      apart a (subst (λ t. Memᴰ a t) (slots-same s.read) m)
        (subst (λ t. Memᴰ a t) (sources-same s.write) k);
  window = λ base m. record { mapped = s.port.window ∙ m.mapped; nonzero = m.nonzero };
}

pub same_write : (b : BusDevice) → SameWrite b b
same_write b = record {
  writing = refl;
  index = refl;
  buffer = refl;
  buffer_length = refl;
  messages = refl;
  number = refl;
  config = refl;
}

pub same_read : (b : BusDevice) → SameRead b b
same_read b = record {
  reading = refl;
  index = refl;
  buffer = refl;
  buffer_length = refl;
  messages = refl;
}
