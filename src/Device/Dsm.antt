-- ===== src/Device/Dsm.antt =====
-- `evaluateDSM` and `getDeviceResourcesDSM`: the device-specific method.
use voodoo_i2c.Base.{ℕ, Option, none, some, List, [], ◌∷◌, if◌then◌else◌}
use voodoo_i2c.Base.Bits.{test_bit}
use voodoo_i2c.Parser.{Buffer, byte}

-- What a method gives: bytes and their number, or an object of another kind.
pub data Object : Type 0 where
  bytes : Buffer → ℕ → Object
  no_data : Object

-- The identifier's bytes, with the first three numbers of it turned round.
unfoldable pub mixed_endian : List ℕ → List ℕ
mixed_endian (a ∷ b ∷ c ∷ d ∷ e ∷ f ∷ g ∷ h ∷ rest) = d ∷ c ∷ b ∷ a ∷ f ∷ e ∷ h ∷ g ∷ rest
mixed_endian guid = guid

-- I2C_DSM_TP7G, as `uuid_parse` gives it.
abbrev pub tp7g : List ℕ
tp7g =
    0xef ∷ 0x87 ∷ 0xeb ∷ 0x82 ∷ 0xf9 ∷ 0x51 ∷ 0x46 ∷ 0xda ∷ 0x84 ∷ 0xec ∷ 0x14 ∷ 0x87 ∷ 0x1a ∷ 0xc6
    ∷ 0xf8 ∷ 0x4b ∷ []

abbrev pub dsm_support_index : ℕ
dsm_support_index = 0

abbrev pub tp7g_resources_index : ℕ
tp7g_resources_index = 1

-- A method is absent or fails, or is given the identifier, the revision and the index.
abbrev pub Method : Type 0
Method = List ℕ → ℕ → ℕ → Option Object

pub record Acpi : Type 0 where
  pub crs : Option Object
  pub xdsm : Method
  pub dsm : Method

pub evaluate_dsm : Acpi → List ℕ → ℕ → Option Object
evaluate_dsm acpi uuid index =
    let guid = mixed_endian uuid in
    let result = acpi.xdsm guid 1 index in
    elim result [ some object ↦ some object | none ↦ acpi.dsm guid 1 index ]

-- The method's function 0 gives a byte that says which functions it has.
pub get_device_resources_dsm : Acpi → ℕ → Option Object
get_device_resources_dsm acpi index = elim (evaluate_dsm acpi tp7g dsm_support_index) [
  | none ↦ none
  | some no_data ↦ none
  | some (bytes res size) ↦
      if test_bit (byte res 0) index then evaluate_dsm acpi tp7g index else none
]
