-- ===== src/Path.antt =====
-- subdoc/path.h: path components, the fixed array that holds them, and the class `Path`, here
-- `SubdocPath`.
pub mod Parse
pub mod Syntax
use subjson.Jsonsl.{PathType, path_none}
use subjson.Loc.{Bytes}
use subjson.Prelude.Words.{sub64}
use subjson.Prelude.{ℕ, ◌+◌, Bool, false, List, [], Option, none, get_or, set, take, replicate}

-- `jsonsl_jpr_component_st` with the field `is_neg` of jsonsl_header.h. `pstr` is the string that
-- the pointer names, cut to `len` bytes, which is all that is read of it.
pub record Component : Type 0 where
  pub ptype : PathType
  pub pstr : Option Bytes
  pub len : ℕ
  pub idx : ℕ
  pub is_neg : Bool

-- `Limits`
abbrev pub max_components : ℕ
max_components = 32

abbrev pub parser_depth : ℕ
parser_depth = max_components + 1

abbrev pub path_components_alloc : ℕ
path_components_alloc = max_components + 1

-- `m_cached` and `m_used` hold the strings of converted components; the head of each list is the
-- end at which the code pushes and pops.
pub record SubdocPath : Type 0 where
  pub components_s : List Component
  pub ncomponents : ℕ
  pub has_negix : Bool
  pub m_cached : List Bytes
  pub m_used : List Bytes

-- a component after `memset`
abbrev pub blank : Component
blank = record { ptype = path_none; pstr = none; len = 0; idx = 0; is_neg = false }

abbrev pub path_new : SubdocPath
path_new = record {
  components_s = replicate path_components_alloc blank;
  ncomponents = 0;
  has_negix = false;
  m_cached = [];
  m_used = [];
}

abbrev pub size : SubdocPath → ℕ
size p = p.ncomponents

abbrev pub get_component : SubdocPath → ℕ → Component
get_component p ix = get_or p.components_s ix blank

abbrev pub back : SubdocPath → Component
back p = get_component p (sub64 (size p) 1)

-- the components in use, from `begin()` up to `end()`
abbrev pub active : SubdocPath → List Component
active p = take p.ncomponents p.components_s

-- Writes the fields of a component through its reference.
abbrev pub write : SubdocPath → ℕ → (Component → Component) → SubdocPath
write p ix f = record p { components_s = set p.components_s ix (f (get_component p ix)) }

-- `PathComponentInfo::add`; the component returned is the one at the old size
unfoldable pub add : SubdocPath → PathType → SubdocPath
add p t =
    let q = write p (size p) (λ c. record c { ptype = t }) in
    record q { ncomponents = p.ncomponents + 1 }

unfoldable pub pop : SubdocPath → SubdocPath
pop p = record p { ncomponents = sub64 p.ncomponents 1 }
