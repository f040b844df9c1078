-- ===== src/Path/Parse/Total.antt =====
-- `parse` answers on every path: its loop ends, its errors are three, and the object stays sound.
use subjson.Jsonsl.{JsonslError, invalid_number, levels_exceeded, jpr_badpath, path_root}
use subjson.Loc.{Bytes}
use subjson.Path.{SubdocPath, size, add}
use subjson.Path.Parse.{
  Outcome, done, fail, M, ◌>>=◌, lift, add_array_index, minus_one, number, add_num_component,
  add_key, add_str_component, find_close, parse_bracket, Token, Scan, bad, token, go_on, token_at,
  json_escape, scan_byte, scan, parse_string, is_allowed_json_escape, after_bracket, parse_round,
  parse_loop, parse,
}
use subjson.Path.Parse.State.{
  IsReady, IsSound, Extends, Part, root, parts, parts_push, any_neg-append, add_array_index_lem,
  add_key_lem,
}
use subjson.Prelude.{
  ℕ, zero, suc, ◌+◌, ◌-◌, ◌≤◌, ◌<◌, ◌≡◌, refl, ◌∙◌, ◌⊎◌, inl, inr, arith, Bool, false, Bool-cases,
  [], ◌∷◌, Option, none, some, Option-cases, ◌==◌, if◌then◌else◌, length, length-set, length-drop,
  take, drop,
}

-- The errors that a path can meet.
abbrev pub IsPathError : JsonslError → Type 0
IsPathError invalid_number = Unit
IsPathError levels_exceeded = Unit
IsPathError jpr_badpath = Unit
IsPathError _ = ⊥

-- The member leaves a sound object; its result has `Q`, or the error is one of a path.
abbrev pub Returns : {A : Type 0} → (A → Type 0) → Outcome A → Type 0
Returns Q (done a q) = IsSound q × Q a
Returns Q (fail e q) = IsSound q × IsPathError e

abbrev pub Any : {A : Type 0} → A → Type 0
Any a = Unit

Returns-bind :
    {A B : Type 0} (Q : A → Type 0) (R : B → Type 0) (m : M A) (f : A → M B) (p : SubdocPath)
    → Returns Q (m p)
    → ((a : A) (q : SubdocPath) → IsSound q → Q a → Returns R (f a q))
    → Returns R ((m >>= f) p)
Returns-bind Q R m f p h k = go (m p) refl h
  where
    go : (o : Outcome _) → m p ≡ o → Returns Q o → Returns R ((m >>= f) p)
    go (done a q) e (s, h) = rw (e, ◌>>=◌) (k a q s h)
    go (fail x q) e h = rw (e, ◌>>=◌) h

Extends-IsSound :
    {p q : SubdocPath} {x : Part} → IsSound p → size p < 32 → Extends p q x → IsSound q
Extends-IsSound {p} {q} {x} s h ext = record {
  ready = ext.ready;
  lower = omega (arith, ext.size_is);
  upper = omega (arith, ext.size_is);
  negix = rw (ext.parts_are, any_neg-append, ext.negix, s.negix) (ground arith);
}

add_array_index-Returns : (ix : ℕ) (p : SubdocPath) → IsSound p → Returns Any (add_array_index ix p)
unfolding add_array_index
add_array_index-Returns ix p s = elim (Bool-cases (size p == 32)) [
  | inl full ↦ rw full (s, tt)
  | inr room ↦
      let fits : size p < 32 = ground (arith, s.upper) in
      let (q, e, ext) = add_array_index_lem ix p s.ready fits in
      rw e (Extends-IsSound s fits ext, tt)
]

add_key-Returns :
    (component : Bytes) (len n : ℕ) (p : SubdocPath)
    → IsSound p
    → Returns Any (add_key component len n p)
unfolding add_key
add_key-Returns component len n p s = elim (Bool-cases (size p == 32)) [
  | inl full ↦ rw full (s, tt)
  | inr room ↦ elim (Bool-cases (len == 0)) [
    | inl none_left ↦ rw (room, none_left) (s, tt)
    | inr some_left ↦
        let fits : size p < 32 = ground (arith, s.upper) in
        let pos : 0 < len = ground arith in
        let (q, e, ext) = add_key_lem component len n p s.ready fits pos in
        rw e (Extends-IsSound s fits ext, tt)
  ]
]

add_str_component-Returns :
    (component : Bytes) (len n : ℕ) (p : SubdocPath)
    → IsSound p
    → Returns Any (add_str_component component len n p)
unfolding add_str_component
add_str_component-Returns component len n p s = ground (
  arith,
  add_key-Returns (drop 1 component) (len - 2) (n - 2) p s,
  add_key-Returns component len n p s,
)

number_then-Returns :
    (o : Option ℕ) (p : SubdocPath)
    → IsSound p
    → Returns Any ((lift invalid_number o >>= add_array_index) p)
number_then-Returns none p s = (s, tt)
number_then-Returns (some ix) p s = add_array_index-Returns ix p s

add_num_component-Returns :
    (component : Bytes) (len : ℕ) (p : SubdocPath)
    → IsSound p
    → Returns Any (add_num_component component len p)
unfolding add_num_component
add_num_component-Returns component len p s = ground (
  arith,
  add_array_index-Returns minus_one p s,
  number_then-Returns (number 0 (take len component)) p s,
)

abbrev Positive : ℕ → Type 0
Positive n = 1 ≤ n

parse_bracket-Returns :
    (path : Bytes) (p : SubdocPath) → IsSound p → Returns Positive (parse_bracket path p)
unfolding parse_bracket
parse_bracket-Returns [] p s = (s, tt)
parse_bracket-Returns (c ∷ path) p s = elim (Option-cases (find_close 0 path)) [
  | inl e ↦ rw (e, ◌>>=◌) (s, tt)
  | inr (ii, e) ↦
      rw (e, ◌>>=◌)
        (Returns-bind Any Positive (add_num_component path ii) _ p
          (add_num_component-Returns path ii p s) (λ a q t _. (t, omega arith)))
]

Scan-cases :
    (x : Scan)
    → (x ≡ bad)
      ⊎ ((t : Token) × (x ≡ token t))
      ⊎ ((q : Bool) × (j : Bool) × (n : ℕ) × (x ≡ go_on q j n))
Scan-cases bad = inl refl
Scan-cases (token t) = inr (inl (t, refl))
Scan-cases (go_on q j n) = inr (inr (q, j, n, refl))

-- The bytes that a token consumes: the '.' is one of them, a '[' is not.
scan_byte-token :
    (q j : Bool) (n ii c : ℕ) {t : Token}
    → scan_byte q j n ii c ≡ token t
    → t.n_consumed ≡ (if c == b'.' then ii + 1 else ii)
unfolding scan_byte token_at json_escape is_allowed_json_escape
scan_byte-token q j n ii c e = ground arith

scan_byte-token_first :
    (q j : Bool) (n ii c : ℕ) {t : Token}
    → scan_byte q j n ii c ≡ token t
    → (c == b'[') ≡ false
    → t.n_consumed ≡ ii + 1
unfolding scan_byte token_at json_escape is_allowed_json_escape
scan_byte-token_first q j n ii c e h = ground arith

-- A token ends at or behind the place where the scan stands.
scan_consumes :
    (q j : Bool) (n ii : ℕ) (xs : Bytes) {t : Token} → scan q j n ii xs ≡ some t → ii ≤ t.n_consumed
unfolding scan
scan_consumes q j n ii [] e = ground arith
scan_consumes q j n ii (c ∷ rest) {t} e = elim (Scan-cases (scan_byte q j n ii c)) [
  | inl b ↦ cc (rw (b, scan) at e)
  | inr (inl (u, k)) ↦ ground (arith, rw (k, scan) at e, scan_byte-token q j n ii c k)
  | inr (inr (q', j', n', k)) ↦
      omega (arith, scan_consumes q' j' n' (ii + 1) rest (rw (k, scan) at e))
]

scan-Positive :
    (c : ℕ) (rest : Bytes) {t : Token}
    → (c == b'[') ≡ false
    → scan false false 0 0 (c ∷ rest) ≡ some t
    → Positive t.n_consumed
unfolding scan
scan-Positive c rest {t} h e = elim (Scan-cases (scan_byte false false 0 0 c)) [
  | inl b ↦ cc (rw (b, scan) at e)
  | inr (inl (u, k)) ↦
      ground (arith, rw (k, scan) at e, scan_byte-token_first false false 0 0 c k h)
  | inr (inr (q', j', n', k)) ↦ omega (arith, scan_consumes q' j' n' 1 rest (rw (k, scan) at e))
]

parse_string-Returns :
    (c : ℕ) (rest : Bytes) (p : SubdocPath)
    → (c == b'[') ≡ false
    → IsSound p
    → Returns Positive (parse_string (c ∷ rest) p)
unfolding parse_string
parse_string-Returns c rest p h s = elim (Option-cases (scan false false 0 0 (c ∷ rest))) [
  | inl e ↦ rw (e, ◌>>=◌) (s, tt)
  | inr (t, e) ↦
      rw (e, ◌>>=◌)
        (Returns-bind Any Positive (add_str_component (c ∷ rest) t.ii t.n_backticks) _ p
          (add_str_component-Returns (c ∷ rest) t.ii t.n_backticks p s)
          (λ a q u _. (u, scan-Positive c rest h e)))
]

abbrev ShorterThan : Bytes → Bytes → Type 0
ShorterThan path left = length left < length path

after_bracket-Returns :
    (path left : Bytes) (q : SubdocPath)
    → IsSound q
    → length left < length path
    → Returns (ShorterThan path) (lift jpr_badpath (after_bracket left) q)
after_bracket-Returns path [] q s h = (s, h)
after_bracket-Returns path (c ∷ rest) q s h = ground arith

-- One round keeps the object sound and leaves fewer bytes.
parse_round-Returns :
    (c : ℕ) (rest : Bytes) (p : SubdocPath)
    → IsSound p
    → Returns (ShorterThan (c ∷ rest)) (parse_round (c ∷ rest) p)
unfolding parse_round
parse_round-Returns c rest p s = elim (Bool-cases (c == b'[')) [
  | inl b ↦ rw b (
      Returns-bind Positive (ShorterThan (c ∷ rest)) (parse_bracket (c ∷ rest)) _ p
        (parse_bracket-Returns (c ∷ rest) p s)
        (λ adv q t h.
          after_bracket-Returns (c ∷ rest) (drop adv (c ∷ rest)) q t
            (omega (arith, length-drop {0} adv (c ∷ rest)))))
  | inr b ↦ rw b (
      Returns-bind Positive (ShorterThan (c ∷ rest)) (parse_string (c ∷ rest)) _ p
        (parse_string-Returns c rest p b s)
        (λ adv q t h. (t, omega (arith, length-drop {0} adv (c ∷ rest)))))
]

parse_loop-Returns :
    (fuel : ℕ) (path : Bytes) (p : SubdocPath)
    → IsSound p
    → length path ≤ fuel
    → Returns Any (parse_loop fuel path p)
unfolding parse_loop
parse_loop-Returns fuel [] p s h = (s, tt)
parse_loop-Returns zero (c ∷ rest) p s h = absurd (omega arith)
parse_loop-Returns (suc fuel) (c ∷ rest) p s h =
    Returns-bind (ShorterThan (c ∷ rest)) Any (parse_round (c ∷ rest)) _ p
      (parse_round-Returns c rest p s)
      (λ left q t k. parse_loop-Returns fuel left q t (omega arith))

-- The root component, in slot 0.
abbrev pub start : SubdocPath → SubdocPath
start p = add (record p { ncomponents = 0; has_negix = false }) path_root

pub size-start : (p : SubdocPath) → size (start p) ≡ 1
unfolding add
size-start p = refl

pub start-IsSound : (p : SubdocPath) → IsReady p → IsSound (start p) × (parts (start p) ≡ root ∷ [])
unfolding add
start-IsSound p r =
    let pushed = parts_push p.components_s 0 _ (omega (arith, r.array)) in
    (
      record {
        ready = record { array = length-set p.components_s 0 _ ∙ r.array; cached = r.cached };
        lower = omega arith;
        upper = omega arith;
        negix = rw pushed refl;
      },
      pushed,
    )

-- On every path, with an object that is ready, `parse` ends with one of three errors or none. The
-- object is sound afterwards: the component array keeps its 33 slots, 1 to 32 of them are in use,
-- and `has_negix` says whether a component in use is negative.
pub parse_total : (path : Bytes) (p : SubdocPath) → IsReady p → Returns Any (parse path p)
unfolding parse
parse_total path p r =
    parse_loop-Returns (length path) path (start p) (start-IsSound p r).0 (omega arith)
