-- ===== src/Path/Syntax/Keys.antt =====
-- `parse_string` on a printed key.
use subjson.Loc.{Bytes}
use subjson.Path.Parse.{
  scan, scan_byte, json_escape, token_at, is_allowed_json_escape, unescape, parse_string,
  add_str_component, add_key, done, ret, M, ◌>>=◌, ◌>>◌,
}
use subjson.Path.Parse.State.{key, key_text, IsReady, Extends, add_key_lem}
use subjson.Path.{SubdocPath, size}
use subjson.Path.Syntax.{IsSafe, IsPlain, doubled}
use native.Mathlib.Nat.{add-zero}
use subjson.Prelude.{
  ℕ, suc, ◌+◌, ◌≤◌, ◌<◌, ◌≡◌, ◌≢◌, refl, ap, subst, ◌-◌, ◌∙◌, arith, true, false, [], ◌∷◌, ◌++◌,
  some, ◌==◌, if◌then◌else◌, length, get_or, All, take, take-append,
}

-- What may stand behind a key: nothing, a '.' or a '['.
abbrev pub EndsKey : Bytes → Type 0
EndsKey [] = Unit
EndsKey (c ∷ rest) = (c ≢ b'.') → (c ≡ b'[')

-- the bytes of `rest` that belong to the key's token
abbrev pub dot_length : Bytes → ℕ
dot_length [] = 0
dot_length (c ∷ rest) = if c == b'.' then 1 else 0

scan_end :
    (n ii : ℕ) (rest : Bytes)
    → EndsKey rest
    → scan false false n ii rest
      ≡ some (record { ii = ii; n_consumed = ii + dot_length rest; n_backticks = n })
unfolding scan scan_byte token_at json_escape is_allowed_json_escape
scan_end n ii [] h = ground arith
scan_end n ii (c ∷ rest) h = ground arith

scan_plain :
    (s : Bytes) (n ii : ℕ) (rest : Bytes)
    → All IsPlain s
    → scan false false n ii (s ++ rest) ≡ scan false false n (ii + length s) rest
unfolding scan scan_byte token_at json_escape is_allowed_json_escape
scan_plain [] n ii rest h = ap (λ k. scan false false n k rest) (omega arith)
scan_plain (c ∷ s) n ii rest h = ground (arith, scan_plain s n (ii + 1) rest)

scan_unquoted :
    (s rest : Bytes)
    → All IsPlain s
    → EndsKey rest
    → scan false false 0 0 (s ++ rest)
      ≡ some (record { ii = length s; n_consumed = length s + dot_length rest; n_backticks = 0 })
scan_unquoted s rest h r = scan_plain s 0 0 rest h ∙ scan_end 0 (0 + length s) rest r ∙ ground arith

abbrev ticks : Bytes → ℕ
ticks [] = 0
ticks (c ∷ s) = if c == b'`' then 2 + ticks s else ticks s

scan-doubled :
    (s : Bytes) (n ii : ℕ) (rest : Bytes)
    → All IsSafe s
    → scan true false n ii (doubled s ++ rest)
      ≡ scan true false (n + ticks s) (ii + length (doubled s)) rest
unfolding scan scan_byte token_at json_escape is_allowed_json_escape
scan-doubled [] n ii rest h = simp add-zero
scan-doubled (c ∷ s) n ii rest h =
    ground (arith, scan-doubled s n (ii + 1) rest, scan-doubled s (n + 1 + 1) (ii + 1 + 1) rest)

unescape-doubled : (s : Bytes) → unescape (doubled s) ≡ s
unfolding unescape
unescape-doubled [] = refl
unescape-doubled (c ∷ []) = ground arith
unescape-doubled (c ∷ d ∷ s) = ground (arith, unescape-doubled (d ∷ s))

doubled_same : (s : Bytes) → ticks s ≡ 0 → doubled s ≡ s
doubled_same [] h = refl
doubled_same (c ∷ s) h = ground (arith, doubled_same s)

key_text-doubled :
    (s component : Bytes) (len n : ℕ)
    → take len component ≡ doubled s
    → n ≡ ticks s
    → key_text component len n ≡ s
key_text-doubled s component len n t h = rw t (ground (arith, doubled_same s, unescape-doubled s))

scan_quoted :
    (s rest : Bytes)
    → All IsSafe s
    → EndsKey rest
    → scan false false 0 0 (b'`' ∷ (doubled s ++ b'`' ∷ rest))
      ≡ some (record {
        ii = length (doubled s) + 2;
        n_consumed = length (doubled s) + 2 + dot_length rest;
        n_backticks = ticks s + 2;
      })
scan_quoted s rest h r =
    open_tick
    ∙ scan-doubled s 1 1 (b'`' ∷ rest) h
    ∙ close_tick (1 + ticks s) (1 + length (doubled s))
    ∙ scan_end _ _ rest r
    ∙ ground arith
  where
    open_tick :
        scan false false 0 0 (b'`' ∷ (doubled s ++ b'`' ∷ rest))
        ≡ scan true false 1 1 (doubled s ++ b'`' ∷ rest)
    open_tick = unfold scan scan_byte token_at json_escape is_allowed_json_escape in refl

    close_tick :
        (n ii : ℕ) → scan true false n ii (b'`' ∷ rest) ≡ scan false false (n + 1) (ii + 1) rest
    close_tick n ii = unfold scan scan_byte token_at json_escape is_allowed_json_escape in refl

get_or-append : (xs : Bytes) (y : ℕ) (ys : Bytes) (d : ℕ) → get_or (xs ++ y ∷ ys) (length xs) d ≡ y
get_or-append [] y ys d = refl
get_or-append (x ∷ xs) y ys d = get_or-append xs y ys d

-- The tests of `add_str_component` on a component in backticks.
add_quoted :
    (s rest : Bytes) (n : ℕ) (p : SubdocPath)
    → add_str_component (b'`' ∷ (s ++ b'`' ∷ rest)) (length s + 2) (n + 2) p
      ≡ add_key (s ++ b'`' ∷ rest) (length s) n p
unfolding add_str_component
add_quoted s rest n p =
    let e₁ : length s + 2 - 1 ≡ suc (length s) = omega arith in
    let e₂ : length s + 2 - 2 ≡ length s = omega arith in
    let e₃ : n + 2 - 2 ≡ n = omega arith in
    rw (e₁, e₂, e₃, get_or-append s b'`' rest 0) (ground arith)

-- ... and on one that does not begin with a backtick.
add_plain :
    (c : ℕ) (s : Bytes) (len n : ℕ) (p : SubdocPath)
    → c ≢ b'`'
    → add_str_component (c ∷ s) len n p ≡ add_key (c ∷ s) len n p
unfolding add_str_component
add_plain c s len n p h = ground arith

pub then_ret :
    (m : M (Unit {0})) (n : ℕ) (p q : SubdocPath) → m p ≡ done tt q → (m >> ret n) p ≡ done n q
then_ret m n p q e = rw (e, ◌>>=◌) refl

pub length-doubled : (s : Bytes) → length s ≤ length (doubled s)
length-doubled [] = omega arith
length-doubled (c ∷ s) = ground (arith, length-doubled s)

-- The key that is stored and the bytes that are consumed, whatever follows the key.
abbrev pub StoresKey : Bytes → ℕ → Bytes → SubdocPath → Type 0
StoresKey text n s p = (q : SubdocPath) × (parse_string text p ≡ done n q) × Extends p q (key s)

pub parse_string_quoted :
    (s rest : Bytes) (p : SubdocPath)
    → All IsSafe s
    → 1 ≤ length s
    → EndsKey rest
    → IsReady p
    → size p < 32
    → StoresKey (b'`' ∷ (doubled s ++ b'`' ∷ rest)) (length (doubled s) + 2 + dot_length rest) s p
unfolding parse_string
parse_string_quoted s rest p h pos r ready room =
    let component = doubled s ++ b'`' ∷ rest in
    let len = length (doubled s) in
    let (q, e, ext) =
      add_key_lem component len (ticks s) p ready room (omega (arith, length-doubled s)) in
    rw (scan_quoted s rest h r, ◌>>=◌)
      (
        q,
        then_ret (add_str_component (b'`' ∷ component) (len + 2) (ticks s + 2)) _ p q
            (add_quoted (doubled s) rest (ticks s) p ∙ e),
        subst (λ k. Extends p q (key k))
            (key_text-doubled s component len (ticks s) (take-append len (doubled s) _ refl) refl)
            ext,
      )

pub parse_string_plain :
    (s rest : Bytes) (p : SubdocPath)
    → All IsPlain s
    → 1 ≤ length s
    → EndsKey rest
    → IsReady p
    → size p < 32
    → StoresKey (s ++ rest) (length s + dot_length rest) s p
unfolding parse_string
parse_string_plain [] rest p h pos r ready room = absurd (omega arith)
parse_string_plain (c ∷ s) rest p h pos r ready room =
    let len = length (c ∷ s) in
    let (q, e, ext) = add_key_lem (c ∷ (s ++ rest)) len 0 p ready room pos in
    rw (scan_unquoted (c ∷ s) rest h r, ◌>>=◌)
      (
        q,
        then_ret (add_str_component (c ∷ (s ++ rest)) len 0) _ p q
            (add_plain c (s ++ rest) len 0 p h.0.1 ∙ e),
        subst (λ k. Extends p q (key k)) (take-append len (c ∷ s) rest refl) ext,
      )
