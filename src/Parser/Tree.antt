-- ===== src/Parser/Tree.antt =====
-- JSON values with their texts, as an independent description, and the actions of the parser on
-- them.
use subjson.Jsonsl.{JsonType, t_object, t_list, t_string, t_special, t_hkey}
use subjson.Loc.{Bytes}
use subjson.Parser.{push, pop}
use subjson.Parser.Trace.{Token, Event, event}
use subjson.Prelude.{ℕ, suc, ◌+◌, List, [], ◌∷◌, ◌++◌, length}
use Prim.Native.Nat.{max}

-- A special is a number or a literal, with the flags of its kind; the text of a string is what stands
-- between its quotes, with the count of its escapes. Every byte string in front of a value, behind
-- it, and in an empty container is white space; around a colon are two.
mutual
  pub data Json : Type 0 where
    special : Bytes → ℕ → Json
    str : Bytes → ℕ → Json
    arr : Items → Json
    obj : Fields → Json

  pub data Items : Type 0 where
    nil : Bytes → Items
    cons : Bytes → Json → Bytes → Items → Items

  pub data Fields : Type 0 where
    end : Bytes → Fields
    field : Bytes → Bytes → ℕ → Bytes → Bytes → Json → Bytes → Fields → Fields

abbrev pub comma : Items → Bytes
comma (nil ws) = []
comma (cons lead v trail rest) = b',' ∷ []

abbrev pub comma_field : Fields → Bytes
comma_field (end ws) = []
comma_field (field lead k n mid mid' v trail rest) = b',' ∷ []

unfoldable mutual
  pub text : Json → Bytes
  text (special s flags) = s
  text (str s n) = b'"' ∷ (s ++ b'"' ∷ [])
  text (arr items) = b'[' ∷ (items_text items ++ b']' ∷ [])
  text (obj fields) = b'{' ∷ (fields_text fields ++ b'}' ∷ [])

  pub items_text : Items → Bytes
  items_text (nil ws) = ws
  items_text (cons lead v trail rest) =
      lead ++ (text v ++ (trail ++ (comma rest ++ items_text rest)))

  pub fields_text : Fields → Bytes
  fields_text (end ws) = ws
  fields_text (field lead k n mid mid' v trail rest) =
      lead
      ++ (b'"'
          ∷ (k
              ++ (b'"'
                  ∷ (mid
                      ++ (b':'
                          ∷ (mid'
                              ++ (text v ++ (trail ++ (comma_field rest ++ fields_text rest)))))))))

-- The fields of a state that an action leaves as they were before.
pub record Stale : Type 0 where
  pub special_flags : ℕ
  pub pos_cur : ℕ
  pub nelem : ℕ
  pub nescapes : ℕ

abbrev stale_token : Stale → JsonType → ℕ → ℕ → Token
stale_token s type at n = record {
  type = type;
  special_flags = s.special_flags;
  pos_begin = at;
  pos_cur = s.pos_cur;
  nelem = n;
  nescapes = s.nescapes;
}

-- The token of a value at the position `at`, at its push and at its pop; `stale` is what the fields
-- hold that the parser does not write.
abbrev pub type_of : Json → JsonType
type_of (special s flags) = t_special
type_of (str s n) = t_string
type_of (arr items) = t_list
type_of (obj fields) = t_object

unfoldable pub count_items : Items → ℕ
count_items (nil ws) = 0
count_items (cons lead v trail rest) = suc (count_items rest)

unfoldable pub count_fields : Fields → ℕ
count_fields (end ws) = 0
count_fields (field lead k n mid mid' v trail rest) = suc (count_fields rest)

-- where a value's pop is, from its beginning: at the closing byte, or behind a special
abbrev pub pop_offset : Json → ℕ
pop_offset (special s flags) = length s
pop_offset (str s n) = length s + 1
pop_offset (arr items) = length (items_text items) + 1
pop_offset (obj fields) = length (fields_text fields) + 1

abbrev pub push_token : (ℕ → Stale) → Json → ℕ → Token
push_token stale (special s flags) at = stale_token (stale at) t_special at (stale at).nelem
push_token stale (str s n) at = stale_token (stale at) t_string at (stale at).nelem
push_token stale (arr items) at = stale_token (stale at) t_list at 0
push_token stale (obj fields) at = stale_token (stale at) t_object at 0

abbrev pub pop_token : (ℕ → Stale) → Json → ℕ → Token
pop_token stale (special s flags) at = record (stale_token (stale at) t_special at 0) {
  special_flags = flags;
  pos_cur = at + length s;
  nelem = (stale (suc at)).nelem;
}
pop_token stale (str s n) at = record (stale_token (stale at) t_string at (stale at).nelem) {
  pos_cur = at + (length s + 1);
  nescapes = n;
}
pop_token stale (arr items) at = stale_token (stale at) t_list at (count_items items)
pop_token stale (obj fields) at =
    stale_token (stale at) t_object at (count_fields fields + count_fields fields)

-- the token of a key
abbrev pub key_push : (ℕ → Stale) → ℕ → Token
key_push stale at = stale_token (stale at) t_hkey at (stale at).nelem

abbrev pub key_pop : (ℕ → Stale) → Bytes → ℕ → ℕ → Token
key_pop stale k n at = record (stale_token (stale at) t_hkey at (stale at).nelem) {
  pos_cur = at + (length k + 1);
  nescapes = n;
}

-- where the value of a field stands, from the field's start
abbrev pub value_offset : Bytes → Bytes → Bytes → Bytes → ℕ
value_offset lead k mid mid' = length lead + (length k + 2) + length mid + 1 + length mid'

-- The actions on a value at the level `suc l` and the position `at`, the `n`-th element of its
-- parent, in front of those that follow; on the elements behind `n` others; on the fields likewise.
unfoldable mutual
  pub actions : (ℕ → Stale) → Json → ℕ → ℕ → ℕ → List Event → List Event
  actions stale (special s flags) l n at es =
      event push l n at (push_token stale (special s flags) at)
      ∷ event pop l n (at + pop_offset (special s flags)) (pop_token stale (special s flags) at)
      ∷ es
  actions stale (str s k) l n at es =
      event push l n at (push_token stale (str s k) at)
      ∷ event pop l n (at + pop_offset (str s k)) (pop_token stale (str s k) at)
      ∷ es
  actions stale (arr items) l n at es =
      event push l n at (push_token stale (arr items) at)
      ∷ item_actions stale items (suc l) 0 (at + 1)
          (event pop l n (at + pop_offset (arr items)) (pop_token stale (arr items) at) ∷ es)
  actions stale (obj fields) l n at es =
      event push l n at (push_token stale (obj fields) at)
      ∷ field_actions stale fields (suc l) 0 (at + 1)
          (event pop l n (at + pop_offset (obj fields)) (pop_token stale (obj fields) at) ∷ es)

  pub item_actions : (ℕ → Stale) → Items → ℕ → ℕ → ℕ → List Event → List Event
  item_actions stale (nil ws) l n at es = es
  item_actions stale (cons lead v trail rest) l n at es =
      actions stale v l (suc n) (at + length lead) (
        item_actions stale rest l (suc n)
          (at + length lead + length (text v) + length trail + length (comma rest)) es)

  pub field_actions : (ℕ → Stale) → Fields → ℕ → ℕ → ℕ → List Event → List Event
  field_actions stale (end ws) l n at es = es
  field_actions stale (field lead k c mid mid' v trail rest) l n at es =
      event push l (suc n) (at + length lead) (key_push stale (at + length lead))
      ∷ event pop l (suc n) (at + length lead + (length k + 1))
          (key_pop stale k c (at + length lead))
      ∷ actions stale v l (suc (suc n)) (at + value_offset lead k mid mid') (
          field_actions stale rest l (suc (suc n))
            (at
              + value_offset lead k mid mid'
              + length (text v)
              + length trail
              + length (comma_field rest))
            es)

-- the levels that a value takes
unfoldable mutual
  pub depth : Json → ℕ
  depth (special s flags) = 1
  depth (str s n) = 1
  depth (arr items) = suc (items_depth items)
  depth (obj fields) = suc (fields_depth fields)

  pub items_depth : Items → ℕ
  items_depth (nil ws) = 0
  items_depth (cons lead v trail rest) = max (depth v) (items_depth rest)

  pub fields_depth : Fields → ℕ
  fields_depth (end ws) = 0
  fields_depth (field lead k c mid mid' v trail rest) = max (depth v) (fields_depth rest)
