-- ===== src/Validate.antt =====
-- subdoc/validate.h: the options and the statuses of `Validator`.
pub mod Callbacks
pub mod Run
pub mod Judge
pub mod Descend
pub mod Depth
pub mod Elements
pub mod Verdict
pub mod Chunks
pub mod Reads
pub mod Wrapped
pub mod Accepts
use subjson.Jsonsl.{JsonslError}
use subjson.Prelude.{ℕ}

-- `Options`
abbrev pub parent_none : ℕ
parent_none = 0x00

abbrev pub parent_array : ℕ
parent_array = 0x02

abbrev pub parent_dict : ℕ
parent_dict = 0x03

abbrev pub value_single : ℕ
value_single = 0x100

abbrev pub value_primitive : ℕ
value_primitive = 0x200

-- What `validate` returns: an error of jsonsl (JSONSL_ERROR_SUCCESS among them) or one of its own,
-- numbered behind those. ETOODEEP is JSONSL_ERROR_LEVELS_EXCEEDED.
pub data ValidateStatus : Type 0 where
  json : JsonslError → ValidateStatus
  enotprimitive emultielem epartial : ValidateStatus
