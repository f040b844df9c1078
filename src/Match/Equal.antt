-- ===== src/Match/Equal.antt =====
-- The comparison of `unique_callback` in subdoc/match.cc, against equality of texts.
use subjson.Jsonsl.{t_string, t_special}
use subjson.Loc.{Bytes, bytes_at}
use subjson.Match.Pop.{compare_item, found_item}
use subjson.Match.Tests.{strncmp_eq}
use subjson.Parser.{State, ParseContext, parsing, Jsn}
use subjson.Prelude.Words.{add64, sub64, add64_lem, sub64_lem}
use subjson.Prelude.{
  not, ltb, ◌↔◌, ℕ, suc, ◌+◌, ◌^◌, ◌<◌, ◌≡◌, ◌≢◌, refl, ap, ◌∙◌, arith, Bool, true, false, [], ◌∷◌,
  ◌++◌, length, ◌==◌, if◌then◌else◌,
}

-- no byte is NUL
abbrev pub NoNul : Bytes → Type 0
NoNul [] = Unit
NoNul (c ∷ s) = (c ≢ 0) × NoNul s

-- equality of two texts
unfoldable pub same_text : Bytes → Bytes → Bool
same_text [] [] = true
same_text [] (c ∷ t) = false
same_text (c ∷ s) [] = false
same_text (c ∷ s) (d ∷ t) = if c == d then same_text s t else false

pub same_text-eq : (s t : Bytes) → same_text s t ≡ true → s ≡ t
unfolding same_text
same_text-eq [] [] h = refl
same_text-eq [] (c ∷ t) h = ground arith
same_text-eq (c ∷ s) [] h = ground arith
same_text-eq (c ∷ s) (d ∷ t) h = let ih = same_text-eq s t in ground arith

pub same_text_refl : (s : Bytes) → same_text s s ≡ true
unfolding same_text
same_text_refl [] = refl
same_text_refl (c ∷ s) = ground (arith, same_text_refl s)

-- Up to the first NUL, of which there is none, `strncmp` compares all bytes.
pub strncmp_eq-same_text :
    (s t more more' : Bytes)
    → NoNul s
    → length t ≡ length s
    → strncmp_eq (length s) (s ++ more) (t ++ more') ≡ same_text s t
unfolding strncmp_eq same_text
strncmp_eq-same_text [] [] more more' nul len = refl
strncmp_eq-same_text [] (d ∷ t) more more' nul len = ground arith
strncmp_eq-same_text (c ∷ s) [] more more' nul len = ground arith
strncmp_eq-same_text (c ∷ s) (d ∷ t) more more' (ne, nul) len =
    let ih = strncmp_eq-same_text s t more more' nul (omega arith) in ground arith

pub same_text-length : (s t : Bytes) → length t ≢ length s → same_text s t ≡ false
unfolding same_text
same_text-length [] [] ne = absurd (ne refl)
same_text-length [] (d ∷ t) ne = refl
same_text-length (c ∷ s) [] ne = refl
same_text-length (c ∷ s) (d ∷ t) ne =
    let ih = same_text-length s t (λ e. ne (ap suc e)) in ground arith

-- The report: the parser stops, and the match in its context says that there is such an item.
abbrev pub reported : Bool → ParseContext → Jsn → Jsn
reported same ctx j =
    if same
    then record j {
      stopfl = true;
      context = parsing (record ctx { match = record ctx.match { unique_item_found = true } });
    }
    else j

found_item-reported :
    (same : Bool) (ctx : ParseContext) (j : Jsn) → found_item same ctx j ≡ reported same ctx j
found_item-reported true ctx j = refl
found_item-reported false ctx j = refl

-- A test of the lengths in front of the comparison changes nothing.
pub compared :
    (s t more more' : Bytes) (same : Bool) (ctx : ParseContext) (j : Jsn)
    → NoNul s
    → (same ≡ true) ↔ (length t ≡ length s)
    → (if not same then j else found_item (strncmp_eq (length s) (s ++ more) (t ++ more')) ctx j)
      ≡ found_item (same_text s t) ctx j
compared s t more more' true ctx j nul iff =
    rw (strncmp_eq-same_text s t more more' nul (iff.0 refl))
compared s t more more' false ctx j nul iff =
    rw (same_text-length s t (λ e. ground (arith, iff.1 e)))

module _ (st : State) (ctx : ParseContext) (j : Jsn) (s t more more' : Bytes) (nul : NoNul s)
    (small : length s < 2 ^ 63) (bound : st.pos_cur < 2 ^ 63) where
  -- At its end, a string item stops the parser and sets the flag just if the bytes between its quotes are those between the
  -- outer bytes of the value. The item has no NUL, its length and its end are below 2 ^ 63, and the
  -- value has at least two bytes.
  pub compare_item-str :
      (x y : ℕ)
      → st.type ≡ t_string
      → st.pos_cur ≡ st.pos_begin + (length s + 1)
      → bytes_at ctx.uniquebuf ≡ b'"' ∷ (s ++ more)
      → bytes_at ctx.match.ensure_unique.at ≡ x ∷ (t ++ y ∷ more')
      → ctx.match.ensure_unique.length ≡ length t + 2
      → compare_item st ctx j ≡ reported (same_text s t) ctx j
  unfolding compare_item
  compare_item-str x y type cur item value len =
      let n : sub64 st.pos_cur st.pos_begin ≡ length s + 1 =
        sub64_lem st.pos_cur st.pos_begin (omega arith) (omega arith) ∙ omega arith in
      let n' : add64 (length s + 1) 1 ≡ length s + 2 =
        add64_lem (length s + 1) 1 (omega arith) ∙ omega arith in
      let n'' : sub64 (length s + 2) 2 ≡ length s =
        sub64_lem (length s + 2) 2 (omega arith) (omega arith) ∙ omega arith in
      let w = ctx.match.ensure_unique.length in
      let long : ltb w 2 ≡ false = ground arith in
      let iff : ((length s + 2 == w) ≡ true) ↔ (length t ≡ length s) = ground arith in
      let same = compared s t more (y ∷ more') (length s + 2 == w) ctx j nul iff in
      rw (type, item, value, n, n', n'', long, same) (found_item-reported (same_text s t) ctx j)

  -- At its end, a number or literal stops the parser and sets the flag just if its text is that of the value. The item has no
  -- NUL, and its length and its end are below 2 ^ 63.
  pub compare_item-special :
      st.type ≡ t_special
      → st.pos_cur ≡ st.pos_begin + length s
      → bytes_at ctx.uniquebuf ≡ s ++ more
      → bytes_at ctx.match.ensure_unique.at ≡ t ++ more'
      → ctx.match.ensure_unique.length ≡ length t
      → compare_item st ctx j ≡ reported (same_text s t) ctx j
  unfolding compare_item
  compare_item-special type cur item value len =
      let n : sub64 st.pos_cur st.pos_begin ≡ length s =
        sub64_lem st.pos_cur st.pos_begin (omega arith) (omega arith) ∙ omega arith in
      let w = ctx.match.ensure_unique.length in
      let iff : ((w == length s) ≡ true) ↔ (length t ≡ length s) = ground arith in
      let same = compared s t more more' (w == length s) ctx j nul iff in
      rw (type, item, value, n, same) (found_item-reported (same_text s t) ctx j)
