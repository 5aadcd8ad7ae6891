-- ===== src/Driver/Same.antt =====
-- The fields of `bus_device` that neither the sending nor the receiving side changes.
use voodoo_i2c.Base.{◌≤◌, ◌≡◌, refl, ◌∙◌}
use voodoo_i2c.Driver.Types.{BusDevice, Driver}

pub record Same (b c : BusDevice) : Type 0 where
  pub abort_source : c.abort_source ≡ b.abort_source
  pub acpi_config : c.acpi_config ≡ b.acpi_config
  pub awake : c.awake ≡ b.awake
  pub bus_config : c.bus_config ≡ b.bus_config
  pub command_error : c.command_error ≡ b.command_error
  pub messages : c.messages ≡ b.messages
  pub message_number : c.message_number ≡ b.message_number
  pub receive_fifo_depth : c.receive_fifo_depth ≡ b.receive_fifo_depth
  pub transaction_fifo_depth : c.transaction_fifo_depth ≡ b.transaction_fifo_depth
  pub workaround : c.access_intr_mask_workaround ≡ b.access_intr_mask_workaround

pub Same-refl : (b : BusDevice) → Same b b
Same-refl b = record {
  abort_source = refl;
  acpi_config = refl;
  awake = refl;
  bus_config = refl;
  command_error = refl;
  messages = refl;
  message_number = refl;
  receive_fifo_depth = refl;
  transaction_fifo_depth = refl;
  workaround = refl;
}

pub Same-trans : {a b c : BusDevice} → Same a b → Same b c → Same a c
Same-trans p q = record {
  abort_source = q.abort_source ∙ p.abort_source;
  acpi_config = q.acpi_config ∙ p.acpi_config;
  awake = q.awake ∙ p.awake;
  bus_config = q.bus_config ∙ p.bus_config;
  command_error = q.command_error ∙ p.command_error;
  messages = q.messages ∙ p.messages;
  message_number = q.message_number ∙ p.message_number;
  receive_fifo_depth = q.receive_fifo_depth ∙ p.receive_fifo_depth;
  transaction_fifo_depth = q.transaction_fifo_depth ∙ p.transaction_fifo_depth;
  workaround = q.workaround ∙ p.workaround;
}

-- Of the rest of the driver the interrupt line stays as well.
pub record Untouched (d e : Driver) : Type 0 where
  pub device : Same d.bus_device e.bus_device
  pub line_enabled : e.line_enabled ≡ d.line_enabled
  pub registered : e.is_interrupt_registered ≡ d.is_interrupt_registered

pub Untouched-refl : (d : Driver) → Untouched d d
Untouched-refl d = record {
  device = Same-refl d.bus_device;
  line_enabled = refl;
  registered = refl;
}

pub Untouched-trans : {c d e : Driver} → Untouched c d → Untouched d e → Untouched c e
Untouched-trans p q = record {
  device = Same-trans p.device q.device;
  line_enabled = q.line_enabled ∙ p.line_enabled;
  registered = q.registered ∙ p.registered;
}

-- What no interrupt changes: all of the above but the two errors.
pub record Steady (b c : BusDevice) : Type 0 where
  pub acpi_config : c.acpi_config ≡ b.acpi_config
  pub awake : c.awake ≡ b.awake
  pub bus_config : c.bus_config ≡ b.bus_config
  pub messages : c.messages ≡ b.messages
  pub message_number : c.message_number ≡ b.message_number
  pub receive_fifo_depth : c.receive_fifo_depth ≡ b.receive_fifo_depth
  pub transaction_fifo_depth : c.transaction_fifo_depth ≡ b.transaction_fifo_depth
  pub workaround : c.access_intr_mask_workaround ≡ b.access_intr_mask_workaround

-- The errors stay sane too: `command_error` has at most its lowest bit.
pub record Handled (b c : BusDevice) : Type 0 where
  pub steady : Steady b c
  pub error_bit : b.command_error ≤ 1 → c.command_error ≤ 1

pub Handled-refl : (b : BusDevice) → Handled b b
Handled-refl b = record {
  steady = record {
    acpi_config = refl;
    awake = refl;
    bus_config = refl;
    messages = refl;
    message_number = refl;
    receive_fifo_depth = refl;
    transaction_fifo_depth = refl;
    workaround = refl;
  };
  error_bit = λ h. h;
}

pub Handled-trans : {a b c : BusDevice} → Handled a b → Handled b c → Handled a c
Handled-trans h k =
    let p = h.steady in
    let q = k.steady in
    record {
      steady = record {
        acpi_config = q.acpi_config ∙ p.acpi_config;
        awake = q.awake ∙ p.awake;
        bus_config = q.bus_config ∙ p.bus_config;
        messages = q.messages ∙ p.messages;
        message_number = q.message_number ∙ p.message_number;
        receive_fifo_depth = q.receive_fifo_depth ∙ p.receive_fifo_depth;
        transaction_fifo_depth = q.transaction_fifo_depth ∙ p.transaction_fifo_depth;
        workaround = q.workaround ∙ p.workaround;
      };
      error_bit = λ e. k.error_bit (h.error_bit e);
    }

pub Same-Handled : {b c : BusDevice} → Same b c → Handled b c
Same-Handled p = record {
  steady = record {
    acpi_config = p.acpi_config;
    awake = p.awake;
    bus_config = p.bus_config;
    messages = p.messages;
    message_number = p.message_number;
    receive_fifo_depth = p.receive_fifo_depth;
    transaction_fifo_depth = p.transaction_fifo_depth;
    workaround = p.workaround;
  };
  error_bit = λ e. rw p.command_error e;
}
