-- ===== src/Path/Syntax.antt =====
-- The path syntax of subdoc/subdoc-api.h (components apart by '.', backticks round a component that
-- holds one, [n] for an array element) as a printer, an independent description for the parser.
pub mod Keys
pub mod Indexes
pub mod RoundTrip
use subjson.Decimal.{to_string}
use subjson.Loc.{Bytes}
use subjson.Path.Parse.{minus_one}
use subjson.Path.Parse.State.{Part, key, index, is_neg_part}
use subjson.Prelude.{
  ℕ, zero, suc, ◌+◌, ◌*◌, ◌≤◌, ◌<◌, ◌≢◌, Bool, true, false, List, [], ◌∷◌, ◌++◌, map, ◌==◌,
  if◌then◌else◌, length, All,
}

-- A component as one writes it.
pub data Piece : Type 0 where
  plain : Bytes → Piece
  quoted : Bytes → Piece
  element : ℕ → Piece
  last_element : Piece

-- a byte that needs no JSON escape
abbrev pub IsSafe : ℕ → Type 0
IsSafe c = (0x1f ≤ c) × (c ≢ b'"') × (c ≢ b'\\')

-- a byte that stands for itself outside backticks
abbrev pub IsPlain : ℕ → Type 0
IsPlain c = IsSafe c × (c ≢ b'`') × (c ≢ b'.') × (c ≢ b'[') × (c ≢ b']')

abbrev pub IsPiece : Piece → Type 0
IsPiece (plain s) = All IsPlain s × (1 ≤ length s)
IsPiece (quoted s) = All IsSafe s × (1 ≤ length s)
IsPiece (element n) = n < minus_one
IsPiece last_element = Unit

abbrev pub doubled : Bytes → Bytes
doubled [] = []
doubled (c ∷ s) = if c == b'`' then b'`' ∷ b'`' ∷ doubled s else c ∷ doubled s

abbrev pub spelling : Piece → Bytes
spelling (plain s) = s
spelling (quoted s) = b'`' ∷ (doubled s ++ b'`' ∷ [])
spelling (element n) = b'[' ∷ (to_string n ++ b']' ∷ [])
spelling last_element = b'[' ∷ b'-' ∷ b'1' ∷ b']' ∷ []

-- what stands in front of a component that is not the first
abbrev pub separator : List Piece → Bytes
separator (plain s ∷ _) = b'.' ∷ []
separator (quoted s ∷ _) = b'.' ∷ []
separator _ = []

unfoldable pub print : List Piece → Bytes
print [] = []
print (x ∷ xs) = spelling x ++ (separator xs ++ print xs)

abbrev pub meaning : Piece → Part
meaning (plain s) = key s
meaning (quoted s) = key s
meaning (element n) = index n false
meaning last_element = index minus_one true
