-- ===== src/Validate/Callbacks.antt =====
-- subdoc/match.cc: the callbacks of the validator.
use subjson.Jsonsl.{JsonslError, levels_exceeded, is_container}
use subjson.Match.Tests.{is_list, is_object, is_push}
use subjson.Parser.{Action, State, ValidateCtx, Context, validating, Jsn, stop, last_state, abort}
use subjson.Prelude.{
  ℕ, ◌+◌, ◌-◌, Bool, false, not, ◌&&◌, ◌||◌, bit_and, Option, none, some, ltb, ◌==◌, if◌then◌else◌,
}
use subjson.Validate.{
  ValidateStatus, json, enotprimitive, emultielem, value_primitive, value_single,
}

abbrev pub put_validate : ValidateCtx → Jsn → Jsn
put_validate ctx j = record j { context = validating ctx }

-- the context of these callbacks; nothing else is stored while they are set
abbrev pub with_validate : Context → Jsn → (ValidateCtx → Jsn) → Jsn
with_validate (validating ctx) j next = next ctx
with_validate _ j next = j

unfoldable pub validate_err_callback : JsonslError → Jsn → Jsn
validate_err_callback e j =
    with_validate j.context j λ ctx. put_validate (record ctx { err = json e }) j

-- ends the parse with an error
abbrev pub refuse : ValidateStatus → ValidateCtx → Jsn → Jsn
refuse e ctx j = stop (put_validate (record ctx { err = e }) j)

-- the level is behind the bound; the levels start at 1
abbrev pub too_deep : Option ℕ → ℕ → Bool
too_deep none level = false
too_deep (some maxdepth) level = level - 1 == maxdepth

abbrev pub has_flag : ℕ → ℕ → Bool
has_flag flags flag = not (bit_and flags flag == 0)

abbrev pub has_multielem : State → Bool
has_multielem parent =
    is_list parent.type && ltb 1 parent.nelem || is_object parent.type && ltb 2 parent.nelem

-- the test for a single element
abbrev pub check_single : Option State → ValidateCtx → Jsn → Jsn
check_single none ctx j = abort j
check_single (some parent) ctx j = if has_multielem parent then refuse emultielem ctx j else j

unfoldable pub validate_callback : Action → ℕ → Jsn → Jsn
validate_callback action lvl j = with_validate j.context j λ ctx.
    let st = j.stack lvl in
    if too_deep ctx.maxdepth st.level
    then refuse (json levels_exceeded) ctx j
    else if st.level == 1
    then put_validate (record ctx { rootcount = ctx.rootcount + 1 }) j
    else if not (st.level == 2 && is_push action)
    then j
    else let nested = has_flag ctx.flags value_primitive && is_container st.type in
      let ctx' = if nested then record ctx { err = enotprimitive } else ctx in
      let j' = if nested then refuse enotprimitive ctx j else j in
      if has_flag ctx.flags value_single then check_single (last_state j' st) ctx' j' else j'
