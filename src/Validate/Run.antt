-- ===== src/Validate/Run.antt =====
-- subdoc/match.cc: `Validator::validate`.
use subjson.Jsonsl.{JsonslError, generic}
use subjson.Loc.{Loc, nullptr, assign}
use subjson.Match.Callbacks.{invoke, invoke_error}
use subjson.Operations.Store.{literal}
use subjson.Parser.{Callback, ErrorCallback, ValidateCtx, Context, validating, Jsn, Parser}
use subjson.Prelude.{
  ℕ, ◌+◌, Bool, true, false, not, bit_and, [], ◌∷◌, Option, none, some, ltb, ◌==◌, if◌then◌else◌,
}
use subjson.Validate.{
  ValidateStatus, json, emultielem, epartial, parent_none, parent_array, parent_dict,
}

abbrev pub value_mask : ℕ
value_mask = 0xff00

abbrev pub parent_mask : ℕ
parent_mask = 0xff

-- `validate_ARRAY_PRE` and so on, in front of the value and behind it; none is another type.
unfoldable pub wrapper : ℕ → Option (Loc × Loc)
wrapper type =
    if type == parent_none
    then some (assign nullptr 0, assign nullptr 0)
    else if type == parent_array
    then some (literal (b'[' ∷ []), literal (b']' ∷ []))
    else if type == parent_dict
    then some (literal (b'{' ∷ b'"' ∷ b'k' ∷ b'"' ∷ b':' ∷ []), literal (b'}' ∷ []))
    else none

-- the bound with the wrapper, and the level for the callbacks
abbrev pub with_wrapper : ℕ → Option ℕ → Option ℕ
with_wrapper type none = none
with_wrapper type (some maxdepth) =
    some (if not (type == parent_none) then maxdepth + 1 else maxdepth)

abbrev pub callback_level : ℕ → Option ℕ → ℕ
callback_level flags none = if not (flags == 0) then 3 else 2
callback_level flags (some maxdepth) = maxdepth + 2

abbrev pub ctx_of : Context → ValidateCtx → ValidateCtx
ctx_of (validating ctx) other = ctx
ctx_of _ other = other

abbrev pub is_success : ValidateStatus → Bool
is_success (json JsonslError.success) = true
is_success _ = false

-- what the count of values at the root says
abbrev pub root_error : ValidateCtx → ValidateStatus
root_error ctx =
    if not (is_success ctx.err)
    then ctx.err
    else if ltb ctx.rootcount 2
    then epartial
    else if ltb 2 ctx.rootcount
    then emultielem
    else ctx.err

-- the parser before the first feed
unfoldable pub prepare : ℕ → Option ℕ → Jsn → Jsn
prepare flags maxdepth j = record j {
  action_callback_pop = none;
  action_callback_push = none;
  action_callback = some Callback.validate_callback;
  error_callback = some ErrorCallback.validate_err_callback;
  max_callback_level = callback_level flags maxdepth;
  call_flags = record {
    call_object = true;
    call_list = true;
    call_string = true;
    call_special = true;
    call_hkey = false;
    call_uescape = false;
  };
  context = validating (record {
    err = json JsonslError.success;
    rootcount = 0;
    flags = flags;
    maxdepth = maxdepth;
  });
}

-- the error of the context that the parser holds
abbrev pub err_in : Context → ValidateStatus
err_in (validating ctx) = ctx.err
err_in _ = json JsonslError.success

abbrev pub err_of : Jsn → ValidateStatus
err_of j = err_in j.context

-- the three feeds
unfoldable pub feed_wrapped : Parser → Loc → Loc × Loc → Jsn → Jsn
unfolding invoke invoke_error
feed_wrapped p value (pre, post) j =
    let feed = p.feed (invoke p) invoke_error in
    let fed = feed value (feed pre j) in if is_success (err_of fed) then feed post fed else fed

abbrev pub final_error : Context → ValidateStatus
final_error (validating ctx) = root_error ctx
final_error _ = json JsonslError.success

-- `validate` with the type of the parent and the flags of the value
unfoldable pub validate_as : Parser → Loc → Option ℕ → ℕ → ℕ → Jsn → ValidateStatus × Jsn
unfolding wrapper prepare feed_wrapped
validate_as p value maxdepth type flags j =
    let ready = prepare flags (with_wrapper type maxdepth) j in
    elim (wrapper type) [
      | none ↦ (json generic, p.reset ready)
      | some around ↦
          let fed = feed_wrapped p value around ready in (final_error fed.context, p.reset fed)
    ]

-- `validate`, with the parser that is reset at the end; the depth is -1 where it is none.
unfoldable pub validate : Parser → Loc → Option ℕ → ℕ → Jsn → ValidateStatus × Jsn
unfolding validate_as
validate p value maxdepth mode j =
    validate_as p value maxdepth (bit_and mode parent_mask) (bit_and mode value_mask) j
