-- ===== src/Match/Request.antt =====
-- `Match::exec_match` on a path with a negative index, against the flags of the request.
use subjson.Loc.{Loc}
use subjson.Match.{Match}
use subjson.Match.Search.{exec_match_negix, exec_match, negix_loop}
use subjson.Parser.{CompInfo, Jsn, Parser}
use subjson.Path.{SubdocPath, active}
use subjson.Prelude.{◌<◌, ◌≡◌, arith, true, ◌∷◌, [], length}

pub negix-request :
    (p : Parser) (m m' : Match) (value : Loc) (orig : CompInfo) (j : Jsn)
    → 1 < length orig
    → exec_match_negix p m value orig j ≡ exec_match_negix p m' value orig j
unfolding exec_match_negix negix_loop
negix-request p m m' value [] j h = absurd (omega arith)
negix-request p m m' value (a ∷ []) j h = absurd (omega arith)
negix-request p m m' value (a ∷ b ∷ cs) j h = ground arith

-- On a path with a negative index and more components than the root, the match that the caller
-- has filled with its request (the siblings, the value that is to be unique, the last element) does
-- not count.
pub exec_match-request :
    (p : Parser) (m m' : Match) (value : Loc) (pth : SubdocPath) (j : Jsn)
    → pth.has_negix ≡ true
    → 1 < length (active pth)
    → exec_match p m value pth j ≡ exec_match p m' value pth j
unfolding exec_match
exec_match-request p m m' value pth j neg h =
    let e = negix-request p m m' value (active pth) j h in rw (neg, e)
