-- ===== src/Match.antt =====
-- subdoc/match.h: the result of a search, with its request flags.
pub mod Tests
pub mod Push
pub mod Pop
pub mod Callbacks
pub mod Search
pub mod Equal
pub mod Request
pub mod Rounds
pub mod Seek
pub mod Quiet
pub mod Scan
pub mod Skip
pub mod Enter
pub mod Reach
pub mod Members
pub mod Steps
pub mod Level
pub mod Scanned
pub mod Finds
pub mod Answer
use subjson.Jsonsl.{JsonslError, success, MatchResult, possible, JsonType, t_root}
use subjson.Loc.{Loc, loc_default, empty}
use subjson.Prelude.{ℕ, Bool, false, not, ◌&&◌, ◌==◌}

-- `SearchOptions`
pub data SearchOptions : Type 0 where
  get_match_only get_following_siblings : SearchOptions

pub record Match : Type 0 where
  pub type : JsonType
  pub status : JsonslError
  pub matchres : MatchResult
  pub sflags : ℕ
  pub match_level : ℕ
  pub position : ℕ
  pub num_siblings : ℕ
  pub num_children : ℕ
  pub immediate_parent_found : Bool
  pub get_last : Bool
  pub extra_options : SearchOptions
  pub unique_item_found : Bool
  pub loc_deepest : Loc
  pub loc_key : Loc
  pub ensure_unique : Loc

-- `Match::clear`: the value of every member initialiser
abbrev pub match_default : Match
match_default = record {
  type = t_root;
  status = success;
  matchres = possible;
  sflags = 0;
  match_level = 0;
  position = 0;
  num_siblings = 0;
  num_children = 0;
  immediate_parent_found = false;
  get_last = false;
  extra_options = get_match_only;
  unique_item_found = false;
  loc_deepest = loc_default;
  loc_key = loc_default;
  ensure_unique = loc_default;
}

unfoldable pub is_first : Match → Bool
is_first m = not (m.num_siblings == 0) && m.position == 0

unfoldable pub is_last : Match → Bool
is_last m = not (m.num_siblings == 0) && m.position == m.num_siblings

unfoldable pub is_only : Match → Bool
is_only m = m.num_siblings == 0

unfoldable pub has_key : Match → Bool
has_key m = not (empty m.loc_key)
