-- ===== src/Parser/Trace.antt =====
-- What contrib/jsonsl/jsonsl.h documents of a feed: the actions come in the order of the bytes, and
-- each runs the callback that is set for it, until one stops the parser.
use subjson.Jsonsl.{JsonslError, JsonType, t_object, t_list, t_string, t_special, t_hkey, t_uescape}
use subjson.Loc.{Loc, Ptr, ptr_add}
use subjson.Parser.{
  Action, push, pop, State, state_zero, Callback, ErrorCallback, CallFlags, Jsn, Invoke,
  InvokeError, Parser,
}
use subjson.Prelude.{
  ℕ, suc, ◌≡◌, Bool, false, not, ◌&&◌, List, [], ◌∷◌, Option, none, some, ltb, ◌==◌, if◌then◌else◌,
}

-- The fields of a state that the parser itself writes.
pub record Token : Type 0 where
  pub type : JsonType
  pub special_flags : ℕ
  pub pos_begin : ℕ
  pub pos_cur : ℕ
  pub nelem : ℕ
  pub nescapes : ℕ

-- An action at the level `suc l`, whose parent has the level `l` and holds `parent_nelem` elements,
-- at the position `pos`; or an error.
pub data Event : Type 0 where
  event : Action → (l : ℕ) → (parent_nelem : ℕ) → (pos : ℕ) → Token → Event
  failed : JsonslError → Event

abbrev pub called : CallFlags → JsonType → Bool
called f t_object = f.call_object
called f t_list = f.call_list
called f t_string = f.call_string
called f t_special = f.call_special
called f t_hkey = f.call_hkey
called f t_uescape = f.call_uescape
called f _ = false

abbrev pub first_of : Option Callback → Option Callback → Option Callback
first_of none d = d
first_of (some c) d = some c

-- the callback for an action
abbrev pub callback_for : Action → Jsn → Option Callback
callback_for push j = first_of j.action_callback_push j.action_callback
callback_for pop j = first_of j.action_callback_pop j.action_callback

-- A push takes over the parent's `ignore_callback`.
abbrev pub ignored : Action → ℕ → Jsn → Bool
ignored push l j = (j.stack l).ignore_callback
ignored pop l j = (j.stack (suc l)).ignore_callback

-- The state at the level of an action, just before its callback. The field `mres` is the user's.
abbrev pub entered : Action → ℕ → Token → Jsn → State
entered action l t j = record {
  type = t.type;
  special_flags = t.special_flags;
  pos_begin = t.pos_begin;
  pos_cur = t.pos_cur;
  level = suc l;
  nelem = t.nelem;
  ignore_callback = ignored action l j;
  nescapes = t.nescapes;
  mres = (j.stack (suc l)).mres;
}

abbrev pub update : (ℕ → State) → ℕ → State → ℕ → State
update s l st i = if i == l then st else s i

-- The parser at an action, just before its callback.
unfoldable pub arrive : Action → ℕ → ℕ → ℕ → Token → Jsn → Jsn
arrive action l n pos t j = record j {
  pos = pos;
  stack =
      update (update j.stack l (record (j.stack l) { nelem = n })) (suc l) (entered action l t j);
}

-- whether the callback is run
abbrev pub is_wanted : Action → ℕ → JsonType → Jsn → Bool
is_wanted action l type j =
    called j.call_flags type && ltb (suc l) j.max_callback_level && not (ignored action l j)

abbrev pub invoke_some : Invoke → Option Callback → Action → ℕ → Ptr → Jsn → Jsn
invoke_some inv none action lvl at j = j
invoke_some inv (some c) action lvl at j = inv c action lvl at j

unfoldable pub deliver : Invoke → Action → ℕ → ℕ → ℕ → Token → Jsn → Jsn
deliver inv action l n pos t j =
    let j' = arrive action l n pos t j in
    if is_wanted action l t.type j
    then invoke_some inv (callback_for action j) action (suc l) (ptr_add j.base pos) j'
    else j'

abbrev pub report : InvokeError → Option ErrorCallback → JsonslError → Jsn → Jsn
report err none e j = j
report err (some c) e j = err c e j

-- An error ends the feed, and so does a callback that stops the parser.
unfoldable pub run : Invoke → InvokeError → List Event → Jsn → Jsn
run inv err [] j = j
run inv err (failed e ∷ es) j = report err j.error_callback e j
run inv err (event action l n pos t ∷ es) j =
    let j' = deliver inv action l n pos t j in
    let next = run inv err es j' in if j'.stopfl then j' else next

-- a parser that is new or was reset
pub record IsReset (j : Jsn) : Type 0 where
  pub running : j.stopfl ≡ false
  pub stack_zero : (i : ℕ) → j.stack i ≡ record state_zero { level = i }

-- The runs on buffers one after the other, each with its actions.
unfoldable pub run_chunks : Invoke → InvokeError → List (Loc × List Event) → Jsn → Jsn
run_chunks inv err [] j = j
run_chunks inv err ((value, es) ∷ chunks) j =
    run_chunks inv err chunks (run inv err es (record j { base = value.at }))

-- Feeding the buffer gives these actions, to a parser that was reset and has since been fed others
-- with the actions `chunks`, and that was not stopped.
abbrev pub Feeds : Parser → List (Loc × List Event) → Loc → List Event → Type 0
Feeds p chunks value es =
    (inv : Invoke) (err : InvokeError) (j : Jsn)
    → IsReset j
    → (run_chunks inv err chunks j).stopfl ≡ false
    → p.feed inv err value (run_chunks inv err chunks j)
      ≡ run inv err es (record (run_chunks inv err chunks j) { base = value.at })
