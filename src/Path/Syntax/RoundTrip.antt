-- ===== src/Path/Syntax/RoundTrip.antt =====
-- Reading back what was printed.
use subjson.Decimal.{to_string}
use subjson.Jsonsl.{jpr_badpath}
use subjson.Loc.{Bytes}
use subjson.Path.{SubdocPath, size}
use subjson.Path.Parse.{
  parse_round, parse_loop, parse, done, lift, ◌>>=◌, parse_bracket, parse_string, after_bracket,
}
use subjson.Path.Parse.State.{root, parts, IsReady, Extends}
use subjson.Path.Parse.Total.{start, start-IsSound, size-start}
use subjson.Path.Syntax.{
  Piece, plain, quoted, element, last_element, IsPiece, spelling, separator, print, meaning,
  doubled,
}
use subjson.Path.Syntax.Indexes.{parse_bracket_element, parse_bracket_last}
use subjson.Path.Syntax.Keys.{EndsKey, dot_length, parse_string_plain, parse_string_quoted}
use subjson.Prelude.{
  ℕ, zero, suc, ◌+◌, ◌≤◌, ◌<◌, ◌≡◌, refl, sym, ap, ◌∙◌, arith, ◌==◌, false, List, [], ◌∷◌, ◌++◌,
  map, append_assoc, append-nil, length, length-append, All, drop, drop-append,
}

-- One round reads one component, and its separator.
abbrev ReadsPiece : Piece → List Piece → SubdocPath → Type 0
ReadsPiece x xs p =
    (q : SubdocPath) × (parse_round (spelling x ++ (separator xs ++ print xs)) p
      ≡ done (print xs) q)
    × Extends p q (meaning x)

separator-EndsKey : (xs : List Piece) → EndsKey (separator xs ++ print xs)
unfolding print
separator-EndsKey [] = tt
separator-EndsKey (plain s ∷ xs) = λ h. absurd (h refl)
separator-EndsKey (quoted s ∷ xs) = λ h. absurd (h refl)
separator-EndsKey (element n ∷ xs) = λ h. refl
separator-EndsKey (last_element ∷ xs) = λ h. refl

dot_length-separator :
    (xs : List Piece) → dot_length (separator xs ++ print xs) ≡ length (separator xs)
unfolding print
dot_length-separator [] = refl
dot_length-separator (plain s ∷ xs) = refl
dot_length-separator (quoted s ∷ xs) = refl
dot_length-separator (element n ∷ xs) = refl
dot_length-separator (last_element ∷ xs) = refl

-- Behind a bracket the separator is skipped.
after_bracket-separator :
    (xs : List Piece) (q : SubdocPath)
    → lift jpr_badpath (after_bracket (separator xs ++ print xs)) q ≡ done (print xs) q
unfolding print
after_bracket-separator [] q = refl
after_bracket-separator (plain s ∷ xs) q = refl
after_bracket-separator (quoted s ∷ xs) q = refl
after_bracket-separator (element n ∷ xs) q = refl
after_bracket-separator (last_element ∷ xs) q = refl

drop_piece :
    (whole text sep rest : Bytes) (n : ℕ)
    → whole ≡ text ++ (sep ++ rest)
    → n ≡ length text + length sep
    → drop n whole ≡ rest
drop_piece whole text sep rest n e h =
    rw (e, ← append_assoc text sep rest)
      (drop-append n (text ++ sep) rest (h ∙ sym (length-append text sep)))

-- A key is read by `parse_string`, a bracket by `parse_bracket`.
round_key :
    (c : ℕ) (text rest : Bytes) (n : ℕ) (p q : SubdocPath)
    → (c == b'[') ≡ false
    → parse_string (c ∷ text) p ≡ done n q
    → drop n (c ∷ text) ≡ rest
    → parse_round (c ∷ text) p ≡ done rest q
unfolding parse_round
round_key c text rest n p q h e d = rw (h, e, ◌>>=◌) (ap (λ l. done l q) d)

round_bracket :
    (text : Bytes) (xs : List Piece) (n : ℕ) (p q : SubdocPath)
    → parse_bracket (b'[' ∷ text) p ≡ done n q
    → drop n (b'[' ∷ text) ≡ separator xs ++ print xs
    → parse_round (b'[' ∷ text) p ≡ done (print xs) q
unfolding parse_round
round_bracket text xs n p q e d = rw (e, ◌>>=◌) (rw d (after_bracket-separator xs q))

parse_round-piece :
    (x : Piece) (xs : List Piece) (p : SubdocPath)
    → IsPiece x
    → IsReady p
    → size p < 32
    → ReadsPiece x xs p
parse_round-piece (plain []) xs p h r room = absurd (omega arith)
parse_round-piece (plain (c ∷ s)) xs p h r room =
    let rest = separator xs ++ print xs in
    let (q, e, ext) = parse_string_plain (c ∷ s) rest p h.0 h.1 (separator-EndsKey xs) r room in
    let left =
      drop_piece (c ∷ (s ++ rest)) (c ∷ s) (separator xs) (print xs) _ refl
        (omega (arith, dot_length-separator xs)) in
    (q, round_key c (s ++ rest) (print xs) _ p q (ground (arith, h.0.0)) e left, ext)
parse_round-piece (quoted s) xs p h r room =
    let rest = separator xs ++ print xs in
    let (q, e, ext) = parse_string_quoted s rest p h.0 h.1 (separator-EndsKey xs) r room in
    let left =
      drop_piece (b'`' ∷ (doubled s ++ b'`' ∷ rest)) (spelling (quoted s)) (separator xs) (print xs)
        _ (simp append_assoc)
        (omega (arith, dot_length-separator xs, length-append {0} (doubled s) (b'`' ∷ []))) in
    rw (append_assoc (doubled s) (b'`' ∷ []) rest)
      (q, round_key b'`' (doubled s ++ b'`' ∷ rest) (print xs) _ p q refl e left, ext)
parse_round-piece (element n) xs p h r room =
    let rest = separator xs ++ print xs in
    let (q, e, ext) = parse_bracket_element n rest p h r room in
    let left =
      drop_piece (b'[' ∷ (to_string n ++ b']' ∷ rest)) (spelling (element n)) [] rest _
        (simp append_assoc) (omega (arith, length-append {0} (to_string n) (b']' ∷ []))) in
    rw (append_assoc (to_string n) (b']' ∷ []) rest)
      (q, round_bracket (to_string n ++ b']' ∷ rest) xs _ p q e left, ext)
parse_round-piece last_element xs p h r room =
    let (q, e, ext) = parse_bracket_last (separator xs ++ print xs) p r room in
    (q, round_bracket (b'-' ∷ b'1' ∷ b']' ∷ (separator xs ++ print xs)) xs 4 p q e refl, ext)

spelling-pos : (x : Piece) → IsPiece x → 1 ≤ length (spelling x)
spelling-pos (plain s) h = omega arith
spelling-pos (quoted s) h = omega arith
spelling-pos (element n) h = omega arith
spelling-pos last_element h = omega arith

parse_loop_round :
    (fuel : ℕ) (path left : Bytes) (p q : SubdocPath)
    → 1 ≤ length path
    → parse_round path p ≡ done left q
    → parse_loop (suc fuel) path p ≡ parse_loop fuel left q
unfolding parse_loop
parse_loop_round fuel [] left p q h e = absurd (omega arith)
parse_loop_round fuel (c ∷ path) left p q h e = rw (e, ◌>>=◌) refl

-- The components that are read stand behind those already there.
abbrev Reads : ℕ → List Piece → SubdocPath → Type 0
Reads fuel xs p =
    (q : SubdocPath) × (parse_loop fuel (print xs) p ≡ done tt q)
    × (parts q ≡ parts p ++ map meaning xs)

parse_loop-print :
    (fuel : ℕ) (xs : List Piece) (p : SubdocPath)
    → All IsPiece xs
    → IsReady p
    → size p + length xs ≤ 32
    → length (print xs) ≤ fuel
    → Reads fuel xs p
unfolding print
parse_loop-print fuel [] p h r room enough =
    (p, unfold parse_loop in refl, sym (append-nil (parts p)))
parse_loop-print zero (x ∷ xs) p h r room enough =
    absurd
      (omega (arith, spelling-pos x h.0, length-append {0} (spelling x) (separator xs ++ print xs)))
parse_loop-print (suc fuel) (x ∷ xs) p h r room enough =
    let rest = separator xs ++ print xs in
    let long = length-append {0} (spelling x) rest in
    let pos = spelling-pos x h.0 in
    let (q, e, ext) = parse_round-piece x xs p h.0 r (omega arith) in
    let (q', e', all) =
      parse_loop-print fuel xs q h.1 ext.ready (omega (arith, ext.size_is))
        (omega (arith, length-append {0} (separator xs) (print xs))) in
    (
      q',
      parse_loop_round fuel _ (print xs) p q (omega arith) e ∙ e',
      all ∙ rw (ext.parts_are) (append_assoc (parts p) (meaning x ∷ []) (map meaning xs)),
    )

-- Parsing, with an object that is ready, what at most 31 components print gives the root and these
-- components, whatever bytes a quoted key holds that need no JSON escape.
pub parse-print :
    (xs : List Piece) (p : SubdocPath)
    → All IsPiece xs
    → length xs ≤ 31
    → IsReady p
    → (q : SubdocPath) × (parse (print xs) p ≡ done tt q) × (parts q ≡ root ∷ map meaning xs)
unfolding parse
parse-print xs p h short r =
    let (s, starts) = start-IsSound p r in
    let (q, e, all) =
      parse_loop-print (length (print xs)) xs (start p) h s.ready (omega (arith, size-start p))
        (omega arith) in
    (q, e, all ∙ ap (λ l. l ++ map meaning xs) starts)
