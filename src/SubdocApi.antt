-- ===== src/SubdocApi.antt =====
-- subdoc/subdoc-api.h: error codes and command codes.
use subjson.Prelude.{ℕ, Bool, not, bit_and, ◌==◌}

-- `Error::Code`
pub data Error : Type 0 where
  success path_enoent path_mismatch path_einval doc_notjson doc_eexists path_e2big : Error
  num_e2big delta_overflow delta_einval value_cantinsert doc_etoodeep value_empty : Error
  value_etoodeep global_enosupport : Error

-- A `Command` is its `uint8_t` code.
abbrev pub Command : Type 0
Command = ℕ

-- `Command::Code`
abbrev pub get : Command
get = 0x00

abbrev pub exists : Command
exists = 0x01

abbrev pub replace : Command
replace = 0x02

abbrev pub remove : Command
remove = 0x03

abbrev pub dict_upsert : Command
dict_upsert = 0x04

abbrev pub dict_upsert_p : Command
dict_upsert_p = 0x84

abbrev pub dict_add : Command
dict_add = 0x05

abbrev pub dict_add_p : Command
dict_add_p = 0x85

abbrev pub array_prepend : Command
array_prepend = 0x06

abbrev pub array_prepend_p : Command
array_prepend_p = 0x86

abbrev pub array_append : Command
array_append = 0x07

abbrev pub array_append_p : Command
array_append_p = 0x87

abbrev pub array_add_unique : Command
array_add_unique = 0x08

abbrev pub array_add_unique_p : Command
array_add_unique_p = 0x88

abbrev pub array_insert : Command
array_insert = 0x09

abbrev pub counter : Command
counter = 0x0a

abbrev pub counter_p : Command
counter_p = 0x8a

abbrev pub get_count : Command
get_count = 0x0b

abbrev flag_mkdir_p : ℕ
flag_mkdir_p = 0x80

unfoldable pub is_mkdir_p : Command → Bool
is_mkdir_p code = not (bit_and code flag_mkdir_p == 0)

-- `code & ~FLAG_MKDIR_P`, on eight bits
unfoldable pub base : Command → Command
base code = bit_and code 0x7f
