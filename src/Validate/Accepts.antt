-- ===== src/Validate/Accepts.antt =====
-- Which values `Validator::validate` of subdoc/match.cc accepts as elements of an array.
use subjson.Jsonsl.{JsonslError, levels_exceeded, is_container}
use subjson.Loc.{Loc}
use subjson.Parser.{Jsn, Parser}
use subjson.Parser.Trace.{Event, IsReset}
use subjson.Parser.Tree.{Items, nil, cons, depth, items_depth, count_items, type_of, Stale}
use subjson.Parser.Walk.{depth-pos}
use subjson.Prelude.{
  ℕ, suc, ◌-◌, ◌≤◌, ◌≡◌, ◌↔◌, refl, sym, ap, ◌∙◌, subst, arith, Bool, true, false, not, bit_and,
  List, some, ltb, ◌==◌, ◌&&◌, if◌then◌else◌,
}
use subjson.Validate.{
  ValidateStatus, json, enotprimitive, emultielem, parent_array, value_single, value_primitive,
}
use subjson.Validate.Callbacks.{has_flag}
use subjson.Validate.Elements.{verdict}
use subjson.Validate.Run.{validate, value_mask, parent_mask, is_success}
use subjson.Validate.Chunks.{is_success-eq}
use subjson.Validate.Reads.{Reads}
use subjson.Validate.Wrapped.{validate-verdict}

unfoldable pub no_containers : Items → Bool
no_containers (nil ws) = true
no_containers (cons lead v trail rest) = not (is_container (type_of v)) && no_containers rest

-- No element is deeper than the bound; behind `n` others there is at most one in all if a single one
-- is asked for, and no array or object if primitives are.
pub record Acceptable (maxdepth : ℕ) (single_one primitives : Bool) (n : ℕ) (items : Items)
    : Type 0 where
  pub shallow : items_depth items ≤ maxdepth
  pub single : single_one ≡ true → count_items items ≤ 1 - n
  pub primitive : primitives ≡ true → no_containers items ≡ true

-- what the flags of a mode ask for
abbrev Passes : ℕ → ℕ → ℕ → Items → Type 0
Passes maxdepth flags n items =
    Acceptable maxdepth (has_flag flags value_single) (has_flag flags value_primitive) n items

accepted :
    (maxdepth flags n : ℕ) (items : Items)
    → Passes maxdepth flags n items
    → is_success (verdict maxdepth flags n items) ≡ true
unfolding verdict depth count_items no_containers
accepted maxdepth flags n (nil ws) a = refl
accepted maxdepth flags n (cons lead v trail rest) a =
    let pos = depth-pos v in
    let shallow = a.shallow in
    let single = a.single in
    let primitive = a.primitive in
    let later = accepted maxdepth flags (suc n) rest (record {
      shallow = omega arith;
      single = λ h. let k = single h in omega arith;
      primitive = λ h. let k = primitive h in ground arith;
    }) in
    ground arith

ltb-false : (a b : ℕ) → ltb a b ≡ false → b ≤ a
ltb-false a b h = ground arith

other : (x y : Bool) → x && y ≡ false → x ≡ true → y ≡ false
other true y h k = h
other false y h k = ground arith

-- what an element passed whose verdict is good
passed :
    (none several nested deep : Bool) (rest : ValidateStatus)
    → is_success (
        let front =
          if none
          then json levels_exceeded
          else if several
          then emultielem
          else if nested
          then enotprimitive
          else json JsonslError.success in
        if not (is_success front) then front else if deep then json levels_exceeded else rest)
      ≡ true
    → (several ≡ false) × (nested ≡ false) × (deep ≡ false) × (is_success rest ≡ true)
passed none several nested deep rest h = ground arith

acceptable :
    (maxdepth flags n : ℕ) (items : Items)
    → is_success (verdict maxdepth flags n items) ≡ true
    → Passes maxdepth flags n items
unfolding verdict depth count_items no_containers
acceptable maxdepth flags n (nil ws) h = record {
  shallow = omega arith;
  single = λ k. omega arith;
  primitive = λ k. refl;
}
acceptable maxdepth flags n (cons lead v trail rest) h =
    let one = has_flag flags value_single in
    let plain = has_flag flags value_primitive in
    let (few, flat, high, good) =
      passed (maxdepth == 0) (one && ltb 1 (suc n)) (plain && is_container (type_of v))
        (ltb maxdepth (depth v)) (verdict maxdepth flags (suc n) rest) h in
    let later = acceptable maxdepth flags (suc n) rest good in
    let shallow = later.shallow in
    let top = ltb-false maxdepth (depth v) high in
    record {
      shallow = omega arith;
      single = λ k.
          let first = ltb-false 1 (suc n) (other one (ltb 1 (suc n)) few k) in
          let others = later.single k in omega arith;
      primitive = λ k.
          let this = other plain (is_container (type_of v)) flat k in
          let others = later.primitive k in rw (this, others);
    }

-- The modes of subdoc/validate.h that read a value as elements of an array: PARENT_ARRAY, with
-- VALUE_SINGLE and with VALUE_PRIMITIVE.
abbrev pub array_mode : Bool → Bool → ℕ
array_mode false false = 0x002
array_mode true false = 0x102
array_mode false true = 0x202
array_mode true true = 0x302

array_mode-parent_mask :
    (one plain : Bool) → bit_and (array_mode one plain) parent_mask ≡ parent_array
array_mode-parent_mask false false = refl
array_mode-parent_mask true false = refl
array_mode-parent_mask false true = refl
array_mode-parent_mask true true = refl

array_mode-value_mask :
    (one plain : Bool)
    → let flags = bit_and (array_mode one plain) value_mask in
      (has_flag flags value_single ≡ one) × (has_flag flags value_primitive ≡ plain)
array_mode-value_mask false false = (refl, refl)
array_mode-value_mask true false = (refl, refl)
array_mode-value_mask false true = (refl, refl)
array_mode-value_mask true true = (refl, refl)

-- In the array mode, alone or with the flag for a single value or for primitives or both, and with a
-- depth, `validate` accepts just the acceptable values, where the parser object was reset and the
-- parser reads the value as these elements.
pub validate-Acceptable :
    (p : Parser) (value : Loc) (items : Items) (stale : ℕ → Stale) (n maxdepth : ℕ)
    (single_one primitives : Bool) (es es' : List Event) (j : Jsn)
    → Reads p value items stale n es es'
    → IsReset j
    → ((validate p value (some maxdepth) (array_mode single_one primitives) j).0
        ≡ json JsonslError.success)
      ↔ Acceptable maxdepth single_one primitives 0 items
validate-Acceptable p value items stale n maxdepth one plain es es' j reads fresh =
    let mode = array_mode one plain in
    let flags = bit_and mode value_mask in
    let (is_one, is_plain) = array_mode-value_mask one plain in
    let e =
      validate-verdict p value items stale n maxdepth mode es es' j reads fresh
        (array_mode-parent_mask one plain) in
    let same : Passes maxdepth flags 0 items ≡ Acceptable maxdepth one plain 0 items =
      ap (λ (x : Bool). Acceptable maxdepth x (has_flag flags value_primitive) 0 items) is_one
      ∙ ap (λ (x : Bool). Acceptable maxdepth one x 0 items) is_plain in
    (
      λ k.
          subst (λ (x : Type 0). x) same
            (acceptable maxdepth flags 0 items (ap is_success (sym e ∙ k))),
      λ a.
          e
          ∙ is_success-eq (verdict maxdepth flags 0 items)
              (accepted maxdepth flags 0 items (subst (λ (x : Type 0). x) (sym same) a)),
    )
