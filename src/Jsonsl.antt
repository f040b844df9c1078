-- ===== src/Jsonsl.antt =====
-- The constants of the parser library jsonsl (contrib/jsonsl/jsonsl.h) that subdoc reads. The
-- library itself is a parameter of the modules that call it.
use subjson.Prelude.{Bool, true, false}

-- `jsonsl_error_t`, without the prefix JSONSL_ERROR_
pub data JsonslError : Type 0 where
  success garbage_trailing special_expected special_incomplete stray_token : JsonslError
  missing_token cant_insert escape_outside_string key_outside_object : JsonslError
  string_outside_container found_null_byte levels_exceeded bracket_mismatch : JsonslError
  hkey_expected weird_whitespace uescape_tooshort escape_invalid trailing_comma : JsonslError
  invalid_number value_expected percent_badhex jpr_badpath jpr_dupslash : JsonslError
  jpr_noroot enomem invalid_codepoint generic : JsonslError

-- `jsonsl_jpr_type_t`, JSONSL_PATH_
pub data PathType : Type 0 where
  path_none path_string path_wildcard path_numeric path_root path_invalid : PathType

-- `jsonsl_jpr_match_t`, JSONSL_MATCH_; `possible` is 0, the value of a cleared field, and
-- JSONSL_MATCH_UNKNOWN is the number of `nomatch`
pub data MatchResult : Type 0 where
  possible complete nomatch type_mismatch : MatchResult

-- `jsonsl_type_t`, JSONSL_T_; `t_root` is 0, the value of a cleared field
pub data JsonType : Type 0 where
  t_unknown t_root t_string t_hkey t_object t_list t_special t_uescape : JsonType

-- JSONSL_STATE_IS_CONTAINER
abbrev pub is_container : JsonType → Bool
is_container t_object = true
is_container t_list = true
is_container _ = false
