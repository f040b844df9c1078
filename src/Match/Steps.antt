-- ===== src/Match/Steps.antt =====
-- Where a text stands in the buffer, and what the path says of one member or element: for the search
-- of subdoc/match.cc.
use subjson.Jsonsl.{t_object, t_list, type_mismatch}
use subjson.HashKey.{HashKey, set_hk_begin, set_hk_end, get_hk}
use subjson.Loc.{Bytes, ptr, ptr_add, to_view}
use subjson.Match.Members.{key_name}
use subjson.Match.{Match}
use subjson.Match.Equal.{same_text}
use subjson.Match.Push.{locate}
use subjson.Match.Seek.{goes_on, fits, seek, seek_items, seek_fields, key_text}
use subjson.Match.Tests.{u32_mod}
use subjson.Parser.{State, ParseContext}
use subjson.Parser.Tree.{
  Json, special, str, arr, obj, Items, cons, Fields, field, text, items_text, fields_text, comma,
  comma_field, value_offset, pop_offset, type_of,
}
use subjson.Path.Parse.State.{Part, root, key, index, other}
use subjson.Prelude.{
  ℕ, suc, ◌+◌, ◌%◌, ◌≤◌, ◌<◌, ◌^◌, ◌≡◌, refl, sym, ap, ◌∙◌, subst, arith, true, false, ◌&&◌, ◌==◌,
  some, length, length-append, append_assoc, List, ◌∷◌, ◌++◌, [],
}

-- The buffer holds the text at this offset from `i`.
pub record Holds (b : Bytes) (i at : ℕ) (s : Bytes) : Type 0 where
  pub front : Bytes
  pub more : Bytes
  pub split : b ≡ front ++ (s ++ more)
  pub start : length front ≡ i + at

module _ {b : Bytes} {i at : ℕ} (x y : Bytes) (h : Holds b i at (x ++ y)) where
  pub Holds-left : Holds b i at x
  Holds-left = record {
    front = h.front;
    more = y ++ h.more;
    split = h.split ∙ ap (λ (s : Bytes). h.front ++ s) (append_assoc x y h.more);
    start = h.start;
  }

  pub Holds-right : Holds b i (at + length x) y
  Holds-right = record {
    front = h.front ++ x;
    more = h.more;
    split =
        h.split
        ∙ ap (λ (s : Bytes). h.front ++ s) (append_assoc x y h.more)
        ∙ sym (append_assoc h.front x (y ++ h.more));
    start = let e = h.start in length-append h.front x ∙ omega arith;
  }

pop_offset-le : (v : Json) → pop_offset v ≤ length (text v)
unfolding text
pop_offset-le (special s flags) = omega arith
pop_offset-le (str s c) = omega (arith, length-append {0} s (b'"' ∷ []))
pop_offset-le (arr items) = omega (arith, length-append {0} (items_text items) (b']' ∷ []))
pop_offset-le (obj fields) = omega (arith, length-append {0} (fields_text fields) (b'}' ∷ []))

pub Holds-pop_offset :
    (b : Bytes) (i at : ℕ) (v : Json)
    → Holds b i at (text v)
    → length b < 2 ^ 63
    → at + pop_offset v < 2 ^ 63
Holds-pop_offset b i at v h small =
    let whole = ap (λ (s : Bytes). length s) h.split in
    let size = length-append h.front (text v ++ h.more) in
    let size' = length-append (text v) h.more in
    let short = pop_offset-le v in let e = h.start in omega arith

pub misfit :
    (ss : List Part) (v : Json) → fits ss v ≡ false → goes_on ss (type_of v) ≡ type_mismatch
misfit [] v h = cc
misfit (root ∷ ss) (special s flags) h = refl
misfit (root ∷ ss) (str s c) h = refl
misfit (root ∷ ss) (arr items) h = refl
misfit (root ∷ ss) (obj fields) h = refl
misfit (key k ∷ ss) (special s flags) h = refl
misfit (key k ∷ ss) (str s c) h = refl
misfit (key k ∷ ss) (arr items) h = refl
misfit (key k ∷ ss) (obj fields) h = cc
misfit (index i neg ∷ ss) (special s flags) h = refl
misfit (index i neg ∷ ss) (str s c) h = refl
misfit (index i neg ∷ ss) (arr items) h = cc
misfit (index i neg ∷ ss) (obj fields) h = refl
misfit (other ∷ ss) (special s flags) h = refl
misfit (other ∷ ss) (str s c) h = refl
misfit (other ∷ ss) (arr items) h = refl
misfit (other ∷ ss) (obj fields) h = refl

-- the position of an element, and of a member
pub located_element :
    (parent : State) (n : ℕ) (c : ParseContext) (m : Match)
    → parent.type ≡ t_list
    → parent.nelem ≡ suc n
    → (locate (some parent) c m).position ≡ n % u32_mod
unfolding locate
located_element parent n c m type count = rw (type, count) (omega arith)

pub located_member :
    (parent : State) (k : ℕ) (c : ParseContext) (m : Match)
    → parent.type ≡ t_object
    → parent.nelem ≡ suc (suc (k + k))
    → (locate (some parent) c m).position ≡ k % u32_mod
unfolding locate
located_member parent k c m type count = rw (type, count) (omega arith)

module _ (i : ℕ) (ss : List Part) (lead : Bytes) (v : Json) (trail : Bytes) (rest : Items)
    (at n : ℕ) where
  pub item_here :
      (n == i) ≡ true
      → fits ss v ≡ true
      → seek_items i ss (cons lead v trail rest) at n ≡ seek ss v (at + length lead) (n % u32_mod)
  unfolding seek_items
  item_here e f = rw (e, f)

  pub item_later :
      (n == i) && fits ss v ≡ false
      → seek_items i ss (cons lead v trail rest) at n
        ≡ seek_items i ss rest
            (at + length lead + length (text v) + length trail + length (comma rest))
            (suc n)
  unfolding seek_items
  item_later e = rw e

module _ (k : Bytes) (ss : List Part) (lead k' : Bytes) (c : ℕ) (mid mid' : Bytes) (v : Json)
    (trail : Bytes) (rest : Fields) (at n : ℕ) where
  pub field_here :
      same_text k (key_text k' c) ≡ true
      → fits ss v ≡ true
      → seek_fields k ss (field lead k' c mid mid' v trail rest) at n
        ≡ seek ss v (at + value_offset lead k' mid mid') (n % u32_mod)
  unfolding seek_fields
  field_here e f = rw (e, f)

  pub field_later :
      same_text k (key_text k' c) && fits ss v ≡ false
      → seek_fields k ss (field lead k' c mid mid' v trail rest) at n
        ≡ seek_fields k ss rest
            (at
              + value_offset lead k' mid mid'
              + length (text v)
              + length trail
              + length (comma_field rest))
            (suc n)
  unfolding seek_fields
  field_later e = rw e

-- the value of a member in the buffer
pub Holds-value :
    {b : Bytes} {i at : ℕ} (lead k mid mid' s : Bytes)
    → Holds b i at (lead ++ (b'"' ∷ (k ++ (b'"' ∷ (mid ++ (b':' ∷ (mid' ++ s)))))))
    → Holds b i (at + value_offset lead k mid mid') s
Holds-value {b} {i} {at} lead k mid mid' s h =
    let h1 = Holds-right lead (b'"' ∷ (k ++ (b'"' ∷ (mid ++ (b':' ∷ (mid' ++ s)))))) h in
    let h2 = Holds-right (b'"' ∷ []) (k ++ (b'"' ∷ (mid ++ (b':' ∷ (mid' ++ s))))) h1 in
    let h3 = Holds-right k (b'"' ∷ (mid ++ (b':' ∷ (mid' ++ s)))) h2 in
    let h4 = Holds-right (b'"' ∷ []) (mid ++ (b':' ∷ (mid' ++ s))) h3 in
    let h5 = Holds-right mid (b':' ∷ (mid' ++ s)) h4 in
    let h6 = Holds-right (b':' ∷ []) (mid' ++ s) h5 in
    let e : at + length lead + 1 + length k + 1 + length mid + 1 + length mid'
        ≡ at + value_offset lead k mid mid' =
      omega arith in
    subst (λ (o : ℕ). Holds b i o s) e (Holds-right mid' s h6)

-- the key of a member in the buffer, as it is read
pub Holds-key_name :
    {b : Bytes} {i at : ℕ} (hk : HashKey) (k rest : Bytes) (c : ℕ)
    → Holds b i at (b'"' ∷ (k ++ (b'"' ∷ rest)))
    → length b < 2 ^ 63
    → to_view
        (get_hk (set_hk_end (set_hk_begin hk (ptr_add (ptr b i) at)) at (at + (length k + 1)) c)).0
      ≡ key_text k c
Holds-key_name {b} {i} {at} hk k rest c h small =
    key_name hk b h.front k (rest ++ h.more) i at c
      (h.split ∙ ap (λ (s : Bytes). h.front ++ b'"' ∷ s) (append_assoc k (b'"' ∷ rest) h.more))
      h.start small
