-- ===== src/Operations/Exec.antt =====
-- subdoc/operations.cc: `op_exec`, with the validation of the value.
use subjson.Jsonsl.{JsonslError, levels_exceeded}
use subjson.Loc.{Bytes, loc_default, empty}
use subjson.Match.{get_match_only, match_default}
use subjson.Operations.{Engine, Operation, result_new}
use subjson.Operations.Arrays.{do_list_prepend, do_list_append, do_insert, do_container_size}
use subjson.Operations.Counter.{do_arith_op}
use subjson.Operations.Store.{and_then, do_match_common, do_get, do_remove, do_store_dict}
use subjson.Path.{size, max_components}
use subjson.Path.Parse
use subjson.Path.Parse.{Outcome, done, fail, parse}
use subjson.Prelude.{ℕ, ◌+◌, ◌-◌, not, ◌||◌, bit_or, ◌==◌, if◌then◌else◌}
use subjson.SubdocApi
use subjson.SubdocApi.{
  Error, success, path_einval, path_e2big, value_cantinsert, value_empty, value_etoodeep,
  global_enosupport,
}
use subjson.Validate.{
  ValidateStatus, json, parent_array, parent_dict, value_single, value_primitive,
}

-- `DepthMode`
pub data DepthMode : Type 0 where
  path_has_newkey path_is_parent : DepthMode

-- The code expects that the path is no longer than the bound.
unfoldable pub get_maxdepth : DepthMode → Operation → ℕ
get_maxdepth path_has_newkey op = max_components + 1 - size op.m_path
get_maxdepth path_is_parent op = max_components - size op.m_path

abbrev pub value_error : ValidateStatus → Error
value_error (json JsonslError.success) = success
value_error (json levels_exceeded) = value_etoodeep
value_error _ = value_cantinsert

unfoldable pub validate : Engine → ℕ → ℕ → Operation → Error
validate e mode depth op =
    if not (empty op.m_userval)
    then value_error (e.validate op.m_userval depth mode)
    else value_empty

-- `status = validate(...)` and what follows
abbrev pub if_valid : Error → Operation → (Operation → Error × Operation) → Error × Operation
if_valid status op next = and_then (status, op) next

-- the mode of ARRAY_APPEND and ARRAY_ADD_UNIQUE
abbrev pub append_mode : Operation → ℕ
append_mode op =
    if SubdocApi.base op.m_optype == SubdocApi.array_add_unique
    then bit_or parent_array (bit_or value_primitive value_single)
    else parent_array

-- the cases of the switch
unfoldable pub exec_get : Engine → Operation → Error × Operation
unfolding do_match_common do_get
exec_get e op = and_then (do_match_common e get_match_only op) do_get

unfoldable pub exec_store : Engine → Operation → Error × Operation
unfolding validate get_maxdepth do_match_common do_store_dict
exec_store e op =
    if size op.m_path == 1
    then (value_cantinsert, op)
    else if_valid (validate e parent_dict (get_maxdepth path_has_newkey op) op) op
        λ op. and_then (do_match_common e get_match_only op) do_store_dict

unfoldable pub exec_remove : Engine → Operation → Error × Operation
unfolding do_remove
exec_remove e op = if size op.m_path == 1 then (value_cantinsert, op) else do_remove e op

unfoldable pub exec_prepend : Engine → Operation → Error × Operation
unfolding validate get_maxdepth do_list_prepend
exec_prepend e op =
    if_valid (validate e parent_array (get_maxdepth path_is_parent op) op) op (do_list_prepend e)

unfoldable pub exec_append : Engine → Operation → Error × Operation
unfolding validate get_maxdepth do_list_append SubdocApi.base
exec_append e op =
    if_valid (validate e (append_mode op) (get_maxdepth path_is_parent op) op) op (do_list_append e)

unfoldable pub exec_insert : Engine → Operation → Error × Operation
unfolding validate get_maxdepth do_insert
exec_insert e op =
    if_valid (validate e parent_array (get_maxdepth path_has_newkey op) op) op (do_insert e)

-- the switch on `m_optype`
unfoldable pub dispatch : Engine → Operation → Error × Operation
dispatch e op =
    let is = λ (c : ℕ). op.m_optype == c in
    if is SubdocApi.get || is SubdocApi.exists
    then exec_get e op
    else if is SubdocApi.dict_add
        || is SubdocApi.dict_add_p
        || is SubdocApi.dict_upsert
        || is SubdocApi.dict_upsert_p
        || is SubdocApi.replace
    then exec_store e op
    else if is SubdocApi.remove
    then exec_remove e op
    else if is SubdocApi.array_prepend || is SubdocApi.array_prepend_p
    then exec_prepend e op
    else if is SubdocApi.array_append
        || is SubdocApi.array_append_p
        || is SubdocApi.array_add_unique
        || is SubdocApi.array_add_unique_p
    then exec_append e op
    else if is SubdocApi.array_insert
    then exec_insert e op
    else if is SubdocApi.counter || is SubdocApi.counter_p
    then do_arith_op e op
    else if is SubdocApi.get_count
    then do_container_size e op
    else (global_enosupport, op)

abbrev pub path_error : JsonslError → Error
path_error levels_exceeded = path_e2big
path_error _ = path_einval

abbrev pub exec_parsed : Engine → Operation → Outcome (Unit {0}) → Error × Operation
exec_parsed e op (fail x p) = (path_error x, record op { m_path = p })
exec_parsed e op (done _ p) = dispatch e (record op { m_path = p })

unfoldable pub op_exec : Engine → Bytes → Operation → Error × Operation
op_exec e pth op = exec_parsed e op (parse pth op.m_path)

-- `Operation::clear`; the null `m_result` is a new result here.
unfoldable pub clear : Operation → Operation
clear op = record op {
  m_path = Parse.clear op.m_path;
  m_match = match_default;
  m_userval = loc_default;
  m_result = result_new;
  m_optype = SubdocApi.get;
}
