-- ===== src/Tests/Paths.antt =====
-- The path parser at concrete paths.
use subjson.Path.{SubdocPath, path_new}
use subjson.Path.Parse.Reuse.{left, clear-parse}
use subjson.Path.Parse.{clear, parse, done, number}
use subjson.Path.Parse.State.{IsReady, parts, root}
use subjson.Path.Parse.Total.{parse_total, Returns, Any}
use subjson.Path.Syntax.{Piece, print, plain, quoted, element, last_element, meaning}
use subjson.Path.Syntax.Indexes.{number-to_string}
use subjson.Path.Syntax.RoundTrip.{parse-print}
use subjson.Prelude.{◌≡◌, refl, List, [], ◌∷◌, map, arith, some, All}
use subjson.Tests.Data.{codes, path_new-IsReady}
use subjson.Path.Syntax.{IsPiece}
use subjson.Decimal.{to_string}

parse_total_example : Returns Any (parse (codes "a.b[3].`c.d`") path_new)
parse_total_example = parse_total (codes "a.b[3].`c.d`") path_new path_new-IsReady

abbrev pieces : List Piece
pieces = plain (codes "a") ∷ quoted (codes "b.`c") ∷ element 13 ∷ last_element ∷ []

print-pieces : print pieces ≡ codes "a.`b.``c`[13][-1]"
unfolding print to_string
print-pieces = refl

pieces-IsPiece : All IsPiece pieces
pieces-IsPiece = ground arith

parse-print_example :
    (q : SubdocPath) × (parse (print pieces) path_new ≡ done tt q)
    × (parts q ≡ root ∷ map meaning pieces)
parse-print_example = parse-print pieces path_new pieces-IsPiece (omega arith) path_new-IsReady

number-to_string_example : number 0 (to_string 4711) ≡ some 4711
number-to_string_example = number-to_string 4711 (omega arith)

clear-parse_example : IsReady (clear (left (parse (codes "`a``b`.[") path_new)))
clear-parse_example = clear-parse (codes "`a``b`.[") path_new path_new-IsReady
