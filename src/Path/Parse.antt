-- ===== src/Path/Parse.antt =====
-- subdoc/path.cc: `Path::parse` and the functions that it calls.
pub mod State
pub mod Total
pub mod Reuse
use subjson.Jsonsl.{
  JsonslError, invalid_number, levels_exceeded, jpr_badpath, generic, path_string, path_numeric,
  path_root, path_none,
}
use subjson.Loc.{Bytes}
use subjson.Path.{Component, SubdocPath, max_components, size, write, add}
use subjson.Prelude.Words.{u64_mod, add64, mul64}
use subjson.Prelude.{
  ℕ, zero, suc, ◌+◌, ◌-◌, Bool, true, false, not, ◌&&◌, ◌||◌, List, [], ◌∷◌, ◌++◌, Option, none,
  some, ltb, ◌==◌, if◌then◌else◌, length, get_or, take, drop, map,
}

-- What a member function leaves: its result and the object, or an error and the object.
pub data Outcome (A : Type 0) : Type 0 where
  done : A → SubdocPath → Outcome A
  fail : JsonslError → SubdocPath → Outcome A

abbrev pub M : Type 0 → Type 0
M A = SubdocPath → Outcome A

infixl 5 ◌>>=◌ ◌>>◌
abbrev pub ◌>>=◌ : {A B : Type 0} → M A → (A → M B) → M B
◌>>=◌ m f p = elim (m p) [ done a q ↦ f a q | fail e q ↦ fail e q ]

abbrev pub ◌>>◌ : {B : Type 0} → M (Unit {0}) → M B → M B
m >> k = m >>= λ _. k

abbrev pub ret : {A : Type 0} → A → M A
ret a p = done a p

abbrev pub raise : {A : Type 0} → JsonslError → M A
raise e p = fail e p

-- `return` of an error code that may be none
abbrev pub lift : {A : Type 0} → JsonslError → Option A → M A
lift e none = raise e
lift e (some a) = ret a

-- A `long` is its 64-bit pattern; this is -1.
abbrev pub minus_one : ℕ
minus_one = u64_mod - 1

unfoldable pub unescape : Bytes → Bytes
unescape [] = []
unescape (c ∷ []) = if c == b'`' then [] else c ∷ []
unescape (c ∷ d ∷ rest) = elim (c == b'`') [
  | false ↦ c ∷ unescape (d ∷ rest)
  | true ↦ elim (d == b'`') [ true ↦ c ∷ unescape rest | false ↦ unescape (d ∷ rest) ]
]

-- The string that the conversion appends to: a cached one if there is one, else a new one.
abbrev pub take_cached : List Bytes → Bytes × List Bytes
take_cached [] = ([], [])
take_cached (s ∷ cached) = (s, cached)

-- the string converted, of which `len` becomes the length
unfoldable pub convert_escaped : Bytes → ℕ → M Bytes
convert_escaped src len p =
    let (s, cached) = take_cached p.m_cached in
    let converted = s ++ unescape (take len src) in
    done converted (record p { m_cached = cached; m_used = converted ∷ p.m_used })

unfoldable pub add_array_index : ℕ → M (Unit {0})
add_array_index ixnum p =
    if size p == max_components
    then fail levels_exceeded p
    else let q = add p path_numeric in
      let comp = write q (size p) (λ c. record c { len = 0; idx = ixnum; pstr = none }) in
      if ixnum == minus_one
      then done tt
          (write (record comp { has_negix = true }) (size p) (λ c. record c { is_neg = true }))
      else done tt (write comp (size p) (λ c. record c { is_neg = false }))

-- The loop over the digits, with the code's test for an overflow.
unfoldable pub number : ℕ → Bytes → Option ℕ
number numval [] = some numval
number numval (c ∷ rest) =
    let tmpval = add64 (mul64 numval 10) (c - 0x30) in
    let more = number tmpval rest in
    if ltb c 0x30 || ltb 0x39 c then none else if ltb tmpval numval then none else more

unfoldable pub add_num_component : Bytes → ℕ → M (Unit {0})
add_num_component component len =
    if get_or component 0 0 == b'-'
    then (if not (len == 2) || not (get_or component 1 0 == b'1')
        then raise invalid_number
        else add_array_index minus_one)
    else lift invalid_number (number 0 (take len component)) >>= add_array_index

-- the end of `add_str_component`: the new component
unfoldable pub store_key : Bytes → ℕ → M (Unit {0})
store_key s len q = done tt (
    write (add q path_string) (size q) (λ c. record c { pstr = some s; len = len; is_neg = false }))

-- the tests and the write of `add_str_component`, once the enclosing backticks are off
unfoldable pub add_key : Bytes → ℕ → ℕ → M (Unit {0})
add_key component len n_backtick p =
    if size p == max_components
    then fail levels_exceeded p
    else if len == 0
    then fail jpr_badpath p
    else if n_backtick == 0
    then store_key (take len component) len p
    else (do s ← convert_escaped component len; store_key s (length s)) p

unfoldable pub add_str_component : Bytes → ℕ → ℕ → M (Unit {0})
add_str_component component len n_backtick =
    if ltb 1 len && get_or component 0 0 == b'`' && get_or component (len - 1) 0 == b'`'
    then add_key (drop 1 component) (len - 2) (n_backtick - 2)
    else add_key component len n_backtick

-- The offset of the first ']', counted from `ii`.
unfoldable pub find_close : ℕ → Bytes → Option ℕ
find_close ii [] = none
find_close ii (c ∷ rest) = if c == b']' then some ii else find_close (ii + 1) rest

-- the component and the bytes consumed; the first byte is the '['
unfoldable pub parse_bracket : Bytes → M ℕ
parse_bracket [] = raise jpr_badpath
parse_bracket (c ∷ path) = do
  ii ← lift jpr_badpath (find_close 0 path)
  add_num_component path ii
  ret (1 + (ii + 1))

-- `isAllowedJsonEscapes`
unfoldable pub is_allowed_json_escape : ℕ → Bool
is_allowed_json_escape c =
    c == 0x22
    || c == 0x2f
    || c == 0x5c
    || c == 0x62
    || c == 0x66
    || c == 0x6e
    || c == 0x72
    || c == 0x74
    || c == 0x75

-- The new value of `in_json_escape`; `none` is the error.
unfoldable pub json_escape : Bool → ℕ → Option Bool
unfolding is_allowed_json_escape
json_escape in_json_escape c =
    if in_json_escape
    then (if not (is_allowed_json_escape c) then none else if c == b'u' then none else some false)
    else if c == b'\\'
    then some true
    else if c == b'"' || ltb c 0x1f
    then none
    else some false

-- Where a string component ends: its length, the bytes consumed, the backticks in it.
pub record Token : Type 0 where
  pub ii : ℕ
  pub n_consumed : ℕ
  pub n_backticks : ℕ

-- What the loop of `parse_string` does at one byte.
pub data Scan : Type 0 where
  bad : Scan
  token : Token → Scan
  go_on : Bool → Bool → ℕ → Scan

unfoldable pub token_at : Bool → ℕ → ℕ → ℕ → Scan
token_at in_json_escape n_backticks ii c =
    if c == b']'
    then bad
    else if c == b'[' || c == b'.'
    then (if in_json_escape
        then bad
        else token (record {
          ii = ii;
          n_consumed = (if c == b'.' then ii + 1 else ii);
          n_backticks = n_backticks;
        }))
    else go_on false in_json_escape n_backticks

abbrev scan_unescaped : Bool → ℕ → ℕ → ℕ → Option Bool → Scan
scan_unescaped in_n1ql_escape n_backticks ii c none = bad
scan_unescaped in_n1ql_escape n_backticks ii c (some in_json_escape) =
    let n = if c == b'`' then n_backticks + 1 else n_backticks in
    let quoted = if c == b'`' then not in_n1ql_escape else in_n1ql_escape in
    if quoted then go_on true in_json_escape n else token_at in_json_escape n ii c

unfoldable pub scan_byte : Bool → Bool → ℕ → ℕ → ℕ → Scan
unfolding json_escape token_at
scan_byte in_n1ql_escape in_json_escape n_backticks ii c =
    scan_unescaped in_n1ql_escape n_backticks ii c (json_escape in_json_escape c)

unfoldable pub scan : Bool → Bool → ℕ → ℕ → Bytes → Option Token
scan in_n1ql_escape in_json_escape n_backticks ii [] =
    if in_n1ql_escape || in_json_escape
    then none
    else some (record { ii = ii; n_consumed = ii; n_backticks = n_backticks })
scan in_n1ql_escape in_json_escape n_backticks ii (c ∷ rest) =
    elim (scan_byte in_n1ql_escape in_json_escape n_backticks ii c) [
      | bad ↦ none
      | token t ↦ some t
      | go_on q j n ↦ scan q j n (ii + 1) rest
    ]

unfoldable pub parse_string : Bytes → M ℕ
parse_string [] = raise jpr_badpath
parse_string (c ∷ rest) = do
  t ← lift jpr_badpath (scan false false 0 0 (c ∷ rest))
  add_str_component (c ∷ rest) t.ii t.n_backticks
  ret t.n_consumed

-- what may follow a bracket, and where the next round starts
abbrev pub after_bracket : Bytes → Option Bytes
after_bracket [] = some []
after_bracket (c ∷ rest) =
    if c == b'[' then some (c ∷ rest) else if c == b'.' then some rest else none

-- One round of the loop: the bytes that are left.
unfoldable pub parse_round : Bytes → M Bytes
parse_round path =
    if get_or path 0 0 == b'['
    then (do adv ← parse_bracket path; lift jpr_badpath (after_bracket (drop adv path)))
    else (do adv ← parse_string path; ret (drop adv path))

-- `generic` means that the fuel ran out; no branch of the code answers it.
unfoldable pub parse_loop : ℕ → Bytes → M (Unit {0})
parse_loop fuel [] = ret tt
parse_loop zero (c ∷ rest) = raise generic
parse_loop (suc fuel) (c ∷ rest) = do left ← parse_round (c ∷ rest); parse_loop fuel left

-- Each round consumes a byte at least.
unfoldable pub parse : Bytes → M (Unit {0})
parse path p =
    parse_loop (length path) path (add (record p { ncomponents = 0; has_negix = false }) path_root)

-- The slots 1 up to the size: `clear` resets them.
abbrev reset : Component → Component
reset c = record c { pstr = none; ptype = path_none; is_neg = false }

abbrev pub clear_slots : ℕ → List Component → List Component
clear_slots n [] = []
clear_slots zero cs = cs
clear_slots (suc n) (c ∷ cs) = reset c ∷ clear_slots n cs

abbrev pub clear_components : ℕ → List Component → List Component
clear_components n [] = []
clear_components n (c ∷ cs) = c ∷ clear_slots (n - 1) cs

unfoldable pub clear : SubdocPath → SubdocPath
clear p = record p {
  components_s = clear_components (size p) p.components_s;
  m_cached = p.m_cached ++ map (λ s. []) p.m_used;
  m_used = [];
}
