-- ===== src/Match/Search.antt =====
-- subdoc/match.cc: `Match::exec_match` and its two forms.
use subjson.Jsonsl.{JsonslError, path_root}
use subjson.Loc.{Loc}
use subjson.Match.{Match, match_default}
use subjson.Match.Callbacks.{invoke, invoke_error}
use subjson.Match.Tests.{is_complete}
use subjson.Parser.{
  Callback, ErrorCallback, CompInfo, ncomponents, parse_context_new, Context, parsing, Jsn, Parser,
  enable_all_callbacks,
}
use subjson.Path.{Component, SubdocPath, active, blank}
use subjson.Prelude.Words.{add64, sub64}
use subjson.Prelude.{
  ℕ, zero, suc, ◌+◌, ◌-◌, Bool, true, false, not, List, [], ◌∷◌, some, leb, ltb, ◌==◌,
  if◌then◌else◌, length, get_or, set, take, drop,
}

-- the parser before the feed
unfoldable pub prepare : Match → CompInfo → Jsn → Jsn
prepare m jpr j = record (enable_all_callbacks j) {
  action_callback_push = some Callback.push_callback;
  action_callback_pop = some Callback.pop_callback;
  error_callback = some ErrorCallback.err_callback;
  max_callback_level = ncomponents jpr + 1;
  context = parsing (parse_context_new (record m { status = JsonslError.success }) jpr);
}

-- the match of the context that the parser holds
abbrev pub match_of : Context → Match → Match
match_of (parsing ctx) m = ctx.match
match_of _ m = m

-- The match, and the parser that was reset.
unfoldable pub exec_match_simple : Parser → Match → Loc → CompInfo → Jsn → Match × Jsn
unfolding prepare
exec_match_simple p m value jpr j =
    let fed = p.feed (invoke p) invoke_error value (prepare m jpr j) in
    (match_of fed.context m, p.reset fed)

-- the first negative index from `ii` on, or the size
unfoldable pub next_negative : ℕ → List Component → ℕ
next_negative ii [] = ii
next_negative ii (c ∷ cs) = if c.is_neg then ii else next_negative (ii + 1) cs

-- `tmp`: a root, and the components of `comp_s` from `cur_start` up to `ii`
abbrev pub segment : ℕ → ℕ → CompInfo → CompInfo
segment cur_start ii comp_s = take (ii - cur_start + 1) (drop (cur_start - 1) comp_s)

abbrev pub put_root : ℕ → CompInfo → CompInfo
put_root ix comp_s = set comp_s ix (record (get_or comp_s ix blank) { ptype = path_root })

-- `match_level += level_offset`, less one from the second round on
abbrev pub offset_level : ℕ → Match → Match
offset_level level_offset m = record m {
  match_level =
      (if level_offset == 0 then m.match_level else sub64 (add64 m.match_level level_offset) 1);
}

-- How the loop ends: by `return 0`, or so that what follows it runs.
pub data Left : Type 0 where
  returned : Match → Jsn → Left
  left : Match → Jsn → Left

abbrev pub is_success : JsonslError → Bool
is_success JsonslError.success = true
is_success _ = false

-- The match that a round starts with: `clear()`, and `get_last` in front of a negative index.
abbrev pub round_match : Bool → Match
round_match is_last_neg = record match_default { get_last = is_last_neg }

-- The loop; `comp_s` is the copy of the components, in which the roots are written. Each round
-- passes a component, so that the count of the components is fuel enough.
unfoldable pub negix_loop : ℕ → Parser → CompInfo → ℕ → ℕ → Loc → Match → Jsn → Left
unfolding next_negative exec_match_simple
negix_loop zero p comp_s cur_start level_offset value m j = left m j
negix_loop (suc fuel) p comp_s cur_start level_offset value m j =
    elim (ltb cur_start (length comp_s)) [
      | false ↦ left m j
      | true ↦
          let ii = next_negative cur_start (drop cur_start comp_s) in
          let comps = put_root (cur_start - 1) comp_s in
          let (found, j') =
            exec_match_simple p (round_match (ltb ii (length comp_s))) value
              (segment cur_start ii comps) j in
          let m' = offset_level level_offset found in
          elim (is_success m'.status) [
            | false ↦ returned m' j'
            | true ↦ elim (is_complete m'.matchres) [
              | false ↦ left m' j'
              | true ↦ negix_loop fuel p comps (ii + 1) m'.match_level m'.loc_deepest m' j'
            ]
          ]
    ]

-- what follows the loop
abbrev pub negix_end : ℕ → Left → Match × Jsn
negix_end n (returned m j) = (m, j)
negix_end n (left m j) = (record m { immediate_parent_found = leb (sub64 n 1) m.match_level }, j)

unfoldable pub exec_match_negix : Parser → Match → Loc → CompInfo → Jsn → Match × Jsn
unfolding negix_loop
exec_match_negix p m value orig j =
    negix_end (length orig) (negix_loop (length orig) p orig 1 0 value m j)

unfoldable pub exec_match : Parser → Match → Loc → SubdocPath → Jsn → Match × Jsn
unfolding exec_match_simple exec_match_negix
exec_match p m value pth j =
    if not pth.has_negix
    then exec_match_simple p m value (active pth) j
    else exec_match_negix p m value (active pth) j
