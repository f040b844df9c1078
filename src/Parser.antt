-- ===== src/Parser.antt =====
-- The parser object of contrib/jsonsl as subdoc/match.cc sees it: the fields that its callbacks read
-- and write, the callbacks themselves by name, what `data` points to. The library's functions are
-- the parameter `Parser`.
pub mod Trace
pub mod Tree
pub mod Walk
use subjson.HashKey.{HashKey, hash_key_new}
use subjson.Jsonsl.{JsonslError, JsonType, t_unknown, MatchResult, possible}
use subjson.Loc.{Loc, Ptr, nullptr}
use subjson.Match.{Match}
use subjson.Path.{Component}
use subjson.Prelude.{
  ℕ, ◌-◌, Bool, true, false, List, length, Option, none, some, ltb, ◌==◌, if◌then◌else◌,
}
use subjson.Validate.{ValidateStatus}

-- `jsonsl_action_t`
pub data Action : Type 0 where
  push pop : Action

-- `jsonsl_state_st`, with the field `mres` of subdoc/jsonsl_header.h
pub record State : Type 0 where
  pub type : JsonType
  pub special_flags : ℕ
  pub pos_begin : ℕ
  pub pos_cur : ℕ
  pub level : ℕ
  pub nelem : ℕ
  pub ignore_callback : Bool
  pub nescapes : ℕ
  pub mres : MatchResult

-- The functions that the code stores in the fields of the parser.
pub data Callback : Type 0 where
  push_callback pop_callback unique_callback next_sibling_push_callback : Callback
  validate_callback : Callback

pub data ErrorCallback : Type 0 where
  err_callback validate_err_callback : ErrorCallback

-- `Path::CompInfo`: the components in use
abbrev pub CompInfo : Type 0
CompInfo = List Component

abbrev pub ncomponents : CompInfo → ℕ
ncomponents = length

-- The base class of `ParseContext` is the field `hk`; the match is held by value.
pub record ParseContext : Type 0 where
  pub hk : HashKey
  pub jpr : CompInfo
  pub match : Match
  pub uniquebuf : Ptr

abbrev pub parse_context_new : Match → CompInfo → ParseContext
parse_context_new m jpr = record { hk = hash_key_new; jpr = jpr; match = m; uniquebuf = nullptr }

-- `validate_ctx`; a depth of none is -1.
pub record ValidateCtx : Type 0 where
  pub err : ValidateStatus
  pub rootcount : ℕ
  pub flags : ℕ
  pub maxdepth : Option ℕ

-- what `data` points to
pub data Context : Type 0 where
  no_context : Context
  parsing : ParseContext → Context
  validating : ValidateCtx → Context

-- the flags `call_OBJECT` and so on
pub record CallFlags : Type 0 where
  pub call_object : Bool
  pub call_list : Bool
  pub call_string : Bool
  pub call_special : Bool
  pub call_hkey : Bool
  pub call_uescape : Bool

-- `jsonsl_st`; the stack is a function of the level. `aborted` says that an `Expects` has failed,
-- which ends the program.
pub record Jsn : Type 0 where
  pub stopfl : Bool
  pub pos : ℕ
  pub base : Ptr
  pub stack : ℕ → State
  pub action_callback_push : Option Callback
  pub action_callback_pop : Option Callback
  pub action_callback : Option Callback
  pub error_callback : Option ErrorCallback
  pub max_callback_level : ℕ
  pub call_flags : CallFlags
  pub context : Context
  pub aborted : Bool

-- How a callback runs: on an action, the level of the state and the place in the buffer.
abbrev pub Invoke : Type 0
Invoke = Callback → Action → ℕ → Ptr → Jsn → Jsn

abbrev pub InvokeError : Type 0
InvokeError = ErrorCallback → JsonslError → Jsn → Jsn

-- `jsonsl_feed`, which runs the callbacks, `jsonsl_reset` and `jsonsl_path_match`
pub record Parser : Type 0 where
  pub feed : Invoke → InvokeError → Loc → Jsn → Jsn
  pub reset : Jsn → Jsn
  pub path_match : CompInfo → Option State → State → Loc → MatchResult

-- `jsonsl_stop`
abbrev pub stop : Jsn → Jsn
stop j = record j { stopfl = true }

-- `jsonsl_last_state`
abbrev pub last_state : Jsn → State → Option State
last_state j st = if ltb 1 st.level then some (j.stack (st.level - 1)) else none

-- `jsonsl_enable_all_callbacks`
abbrev pub enable_all_callbacks : Jsn → Jsn
enable_all_callbacks j = record j {
  call_flags = record j.call_flags {
    call_hkey = true;
    call_string = true;
    call_object = true;
    call_special = true;
    call_list = true;
  };
}

-- writes one state of the stack
abbrev pub put_state : ℕ → State → Jsn → Jsn
put_state lvl st j = record j { stack = λ i. if i == lvl then st else j.stack i }

abbrev pub put_context : ParseContext → Jsn → Jsn
put_context ctx j = record j { context = parsing ctx }

-- a failed `Expects`
abbrev pub abort : Jsn → Jsn
abort j = record j { aborted = true; stopfl = true }

abbrev pub expects : Bool → Jsn → Jsn → Jsn
expects true next j = next
expects false next j = abort j

-- `get_ctx`; nothing else is stored while these callbacks are set.
abbrev pub with_ctx : Context → Jsn → (ParseContext → Jsn) → Jsn
with_ctx (parsing ctx) j next = next ctx
with_ctx _ j next = j

abbrev pub state_zero : State
state_zero = record {
  type = t_unknown;
  special_flags = 0;
  pos_begin = 0;
  pos_cur = 0;
  level = 0;
  nelem = 0;
  ignore_callback = false;
  nescapes = 0;
  mres = possible;
}
