-- ===== src/Match/Tests.antt =====
-- Tests on the enumerations that the callbacks of subdoc/match.cc read, and 32-bit differences.
use subjson.Jsonsl.{
  JsonslError, JsonType, t_hkey, t_object, t_list, t_string, t_special, MatchResult, possible,
  complete,
}
use subjson.Loc.{Bytes}
use subjson.Match.{Match, SearchOptions, get_match_only, get_following_siblings}
use subjson.Parser.{Action, push, pop, ParseContext, Jsn, put_context, with_ctx}
use subjson.Prelude.{ℕ, zero, suc, ◌+◌, ◌-◌, ◌%◌, ◌^◌, Bool, true, false, ◌&&◌, ◌||◌, [], ◌∷◌, ◌==◌}

abbrev pub u32_mod : ℕ
u32_mod = 2 ^ 32

-- `static_cast<unsigned>` of a difference
abbrev pub sub32 : ℕ → ℕ → ℕ
sub32 a b = (a % u32_mod + u32_mod - b % u32_mod) % u32_mod

abbrev pub is_hkey : JsonType → Bool
is_hkey t_hkey = true
is_hkey _ = false

abbrev pub is_object : JsonType → Bool
is_object t_object = true
is_object _ = false

abbrev pub is_list : JsonType → Bool
is_list t_list = true
is_list _ = false

abbrev pub is_special : JsonType → Bool
is_special t_special = true
is_special _ = false

abbrev pub is_string : JsonType → Bool
is_string t_string = true
is_string _ = false

abbrev pub is_possible : MatchResult → Bool
is_possible possible = true
is_possible _ = false

abbrev pub is_complete : MatchResult → Bool
is_complete complete = true
is_complete _ = false

abbrev pub is_push : Action → Bool
is_push push = true
is_push pop = false

abbrev pub wants_siblings : SearchOptions → Bool
wants_siblings get_following_siblings = true
wants_siblings get_match_only = false

abbrev pub put_match : ParseContext → Match → Jsn → Jsn
put_match ctx m j = put_context (record ctx { match = m }) j

abbrev pub byte : Bytes → ℕ
byte [] = 0
byte (c ∷ s) = c

abbrev pub rest : Bytes → Bytes
rest [] = []
rest (c ∷ s) = s

-- `strncmp(a, b, n) == 0`
unfoldable pub strncmp_eq : ℕ → Bytes → Bytes → Bool
strncmp_eq zero a b = true
strncmp_eq (suc n) a b = byte a == byte b && (byte a == 0 || strncmp_eq n (rest a) (rest b))

unfoldable pub err_callback : JsonslError → Jsn → Jsn
err_callback e j = with_ctx j.context j λ ctx. put_match ctx (record ctx.match { status = e }) j
