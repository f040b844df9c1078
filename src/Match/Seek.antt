-- ===== src/Match/Seek.antt =====
-- Which value of a document a path names: an independent description for the search of
-- subdoc/match.cc.
use subjson.Jsonsl.{
  JsonType, t_object, t_list, MatchResult, possible, complete, nomatch, type_mismatch, path_string,
  path_numeric,
}
use subjson.Loc.{Bytes, Loc, to_view}
use subjson.Match.Equal.{NoNul, same_text}
use subjson.Match.Tests.{u32_mod}
use subjson.Parser.{State, Parser}
use subjson.Parser.Tree.{
  Json, arr, obj, Items, nil, cons, Fields, end, field, text, comma, comma_field, value_offset,
  type_of,
}
use subjson.Path.{Component}
use subjson.Path.Parse.State.{Part, key, index}
use subjson.Prelude.{
  suc, ℕ, ◌+◌, ◌%◌, ◌≡◌, Bool, true, false, ◌&&◌, List, [], ◌∷◌, ◌++◌, Option, none, some, ◌==◌,
  if◌then◌else◌, length,
}
use subjson.Uescape.{convert}

-- A value in the document, with the number of elements or members in front of it.
pub record Hit : Type 0 where
  pub offset : ℕ
  pub value : Json
  pub position : ℕ

-- what a component of the path asks of an element that it names, and of its type
abbrev pub goes_on : List Part → JsonType → MatchResult
goes_on [] type = complete
goes_on (key k ∷ ss) t_object = possible
goes_on (index i neg ∷ ss) t_list = possible
goes_on _ type = type_mismatch

abbrev pub fits : List Part → Json → Bool
fits ss v = elim (goes_on ss (type_of v)) [ complete ↦ true | possible ↦ true | _ ↦ false ]

-- the key that is meant: escapes are converted
abbrev pub key_text : Bytes → ℕ → Bytes
key_text k c = if c == 0 then k else (convert k []).1

-- The first element at the index, or the first member with the key, whose type fits the rest of
-- the path, and so on. The value stands at the offset `at`, behind `n` others; a position has 32
-- bits.
unfoldable mutual
  pub seek : List Part → Json → ℕ → ℕ → Option Hit
  seek [] v at n = some (record { offset = at; value = v; position = n })
  seek (key k ∷ ss) (obj fields) at n = seek_fields k ss fields (at + 1) 0
  seek (index i neg ∷ ss) (arr items) at n = seek_items i ss items (at + 1) 0
  seek (_ ∷ ss) v at n = none

  pub seek_items : ℕ → List Part → Items → ℕ → ℕ → Option Hit
  seek_items i ss (nil ws) at n = none
  seek_items i ss (cons lead v trail rest) at n =
      let here = seek ss v (at + length lead) (n % u32_mod) in
      let later =
        seek_items i ss rest
          (at + length lead + length (text v) + length trail + length (comma rest)) (suc n) in
      if n == i && fits ss v then here else later

  pub seek_fields : Bytes → List Part → Fields → ℕ → ℕ → Option Hit
  seek_fields k ss (end ws) at n = none
  seek_fields k ss (field lead k' c mid mid' v trail rest) at n =
      let here = seek ss v (at + value_offset lead k' mid mid') (n % u32_mod) in
      let later =
        seek_fields k ss rest
          (at
            + value_offset lead k' mid mid'
            + length (text v)
            + length trail
            + length (comma_field rest))
          (suc n) in
      if same_text k (key_text k' c) && fits ss v then here else later

-- The component of the path says this; a key has no NUL.
abbrev pub Spells : Component → Part → Type 0
Spells c (key k) = (c.ptype ≡ path_string) × (c.pstr ≡ some k) × (c.len ≡ length k) × NoNul k
Spells c (index i neg) = (c.ptype ≡ path_numeric) × (c.idx ≡ i)
Spells c _ = ⊥

abbrev pub SpellsAll : List Component → List Part → Type 0
SpellsAll [] [] = Unit
SpellsAll (c ∷ cs) (s ∷ ss) = Spells c s × SpellsAll cs ss
SpellsAll _ _ = ⊥

-- What contrib/jsonsl documents of `jsonsl_path_match`, on a path whose components from the level
-- of the parent on are `here` and `behind`: the root always matches; a member matches by its key and
-- an element by its index; then the type counts, and at the end of the path the match is complete.
pub record Resolves (p : Parser) : Type 0 where
  pub at_root :
      (c : Component) (cs : List Component) (ss : List Part) (st : State) (name : Loc)
      → SpellsAll cs ss
      → p.path_match (c ∷ cs) none st name ≡ goes_on ss st.type
  pub at_member :
      (front : List Component) (c : Component) (cs : List Component) (k : Bytes) (ss : List Part)
      (parent st : State) (name : Loc)
      → SpellsAll (c ∷ cs) (key k ∷ ss)
      → parent.type ≡ t_object
      → parent.level ≡ length front
      → p.path_match (front ++ c ∷ cs) (some parent) st name
        ≡ (if same_text k (to_view name) then goes_on ss st.type else nomatch)
  pub at_element :
      (front : List Component) (c : Component) (cs : List Component) (i : ℕ) (neg : Bool)
      (ss : List Part) (parent st : State) (name : Loc)
      → SpellsAll (c ∷ cs) (index i neg ∷ ss)
      → parent.type ≡ t_list
      → parent.level ≡ length front
      → p.path_match (front ++ c ∷ cs) (some parent) st name
        ≡ (if parent.nelem == i + 1 then goes_on ss st.type else nomatch)
