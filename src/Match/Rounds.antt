-- ===== src/Match/Rounds.antt =====
-- The loop of `Match::exec_match_negix` in subdoc/match.cc: each round passes a component.
use subjson.Loc.{Loc}
use subjson.Match.{Match}
use subjson.Match.Search.{
  next_negative, segment, put_root, offset_level, Left, returned, left, is_success, round_match,
  negix_loop, exec_match_simple,
}
use subjson.Match.Tests.{is_complete}
use subjson.Parser.{CompInfo, Jsn, Parser}
use subjson.Path.{Component}
use subjson.Prelude.{
  ℕ, zero, suc, ◌+◌, ◌-◌, ◌≤◌, ◌≡◌, refl, sym, ap, arith, true, false, List, [], ◌∷◌, ltb, length,
  length-set, drop,
}

next_negative_le : (ii : ℕ) (cs : List Component) → ii ≤ next_negative ii cs
unfolding next_negative
next_negative_le ii [] = omega arith
next_negative_le ii (c ∷ cs) = let later = next_negative_le (ii + 1) cs in ground arith

-- no round is left
ended :
    (fuel : ℕ) (p : Parser) (comp_s : CompInfo) (cur_start level_offset : ℕ) (value : Loc)
    (m : Match) (j : Jsn)
    → length comp_s ≤ cur_start
    → negix_loop fuel p comp_s cur_start level_offset value m j ≡ left m j
unfolding negix_loop
ended zero p comp_s cur_start level_offset value m j h = refl
ended (suc fuel) p comp_s cur_start level_offset value m j h = ground arith

-- Two amounts of fuel for the loop, each with the current start at least the number of
-- components, give the same.
pub negix_loop_fuel :
    (fuel fuel' : ℕ) (p : Parser) (comp_s : CompInfo) (cur_start level_offset : ℕ) (value : Loc)
    (m : Match) (j : Jsn)
    → length comp_s ≤ cur_start + fuel
    → length comp_s ≤ cur_start + fuel'
    → negix_loop fuel p comp_s cur_start level_offset value m j
      ≡ negix_loop fuel' p comp_s cur_start level_offset value m j
unfolding negix_loop
negix_loop_fuel zero fuel' p comp_s cur_start level_offset value m j h h' =
    sym (ended fuel' p comp_s cur_start level_offset value m j (omega arith))
negix_loop_fuel (suc fuel) zero p comp_s cur_start level_offset value m j h h' =
    ended (suc fuel) p comp_s cur_start level_offset value m j (omega arith)
negix_loop_fuel (suc fuel) (suc fuel') p comp_s cur_start level_offset value m j h h' =
    let ii = next_negative cur_start (drop cur_start comp_s) in
    let comps = put_root (cur_start - 1) comp_s in
    let (found, j') =
      exec_match_simple p (round_match (ltb ii (length comp_s))) value (segment cur_start ii comps)
        j in
    let m' = offset_level level_offset found in
    let further = next_negative_le cur_start (drop cur_start comp_s) in
    let same : length comps ≡ length comp_s = length-set comp_s (cur_start - 1) _ in
    ap
      (λ (rest : Left). elim (ltb cur_start (length comp_s)) [
        | false ↦ left m j
        | true ↦ elim (is_success m'.status) [
          | false ↦ returned m' j'
          | true ↦ elim (is_complete m'.matchres) [ false ↦ left m' j' | true ↦ rest ]
        ]
      ])
      (negix_loop_fuel fuel fuel' p comps (ii + 1) m'.match_level m'.loc_deepest m' j' (omega arith)
        (omega arith))
