-- ===== src/Path/Parse/State.antt =====
-- How the members that add a component change the object.
use subjson.Jsonsl.{PathType, path_string, path_numeric, path_root}
use subjson.Loc.{Bytes}
use subjson.Path.{Component, SubdocPath, size, active, add, get_component}
use subjson.Path.Parse.{
  done, add_array_index, minus_one, store_key, convert_escaped, add_key, unescape, take_cached,
  ◌>>=◌,
}
use subjson.Prelude.{
  ℕ, suc, ◌+◌, ◌≤◌, ◌<◌, ◌≡◌, refl, ap, ◌∙◌, arith, Bool, false, ◌||◌, Bool-cases, inl, inr,
  set-set, List, [], ◌∷◌, ◌++◌, map, map-append, Option, none, some, ◌==◌, if◌then◌else◌, length,
  length-set, get_or-set, set, take, take-set, All,
}

-- What a component says.
pub data Part : Type 0 where
  root : Part
  key : Bytes → Part
  index : ℕ → Bool → Part
  other : Part

abbrev string_of : Option Bytes → Bytes
string_of none = []
string_of (some s) = s

abbrev view_as : PathType → Component → Part
view_as path_root c = root
view_as path_string c = key (string_of c.pstr)
view_as path_numeric c = index c.idx c.is_neg
view_as _ c = other

abbrev pub view : Component → Part
view c = view_as c.ptype c

abbrev pub parts : SubdocPath → List Part
parts p = map view (active p)

abbrev pub is_neg_part : Part → Bool
is_neg_part (index i b) = b
is_neg_part _ = false

abbrev pub any_neg : List Part → Bool
any_neg [] = false
any_neg (x ∷ xs) = is_neg_part x || any_neg xs

pub any_neg-append : (xs ys : List Part) → any_neg (xs ++ ys) ≡ any_neg xs || any_neg ys
any_neg-append [] ys = refl
any_neg-append (x ∷ xs) ys = ground (arith, any_neg-append xs ys)

-- The object can be parsed into: the array is whole and the cached strings are cleared.
pub record IsReady (p : SubdocPath) : Type 0 where
  pub array : length p.components_s ≡ 33
  pub cached : All (λ (s : Bytes). s ≡ []) p.m_cached

-- What holds from the root component on.
pub record IsSound (p : SubdocPath) : Type 0 where
  pub ready : IsReady p
  pub lower : 1 ≤ size p
  pub upper : size p ≤ 32
  pub negix : p.has_negix ≡ any_neg (parts p)

-- `q` is `p` with one more component.
pub record Extends (p q : SubdocPath) (x : Part) : Type 0 where
  pub parts_are : parts q ≡ parts p ++ x ∷ []
  pub size_is : size q ≡ size p + 1
  pub negix : q.has_negix ≡ (p.has_negix || is_neg_part x)
  pub ready : IsReady q

pub parts_push :
    (xs : List Component) (n : ℕ) (c : Component)
    → n < length xs
    → map view (take (n + 1) (set xs n c)) ≡ map view (take n xs) ++ view c ∷ []
parts_push xs n c h =
    let e : n + 1 ≡ suc n = omega arith in
    rw (e, take-set n xs c h) (map-append view (take n xs) (c ∷ []))

-- the object that `add_array_index` leaves
abbrev with_index : ℕ → SubdocPath → SubdocPath
with_index ix p = record p {
  components_s =
      set p.components_s p.ncomponents
        (record { ptype = path_numeric; pstr = none; len = 0; idx = ix; is_neg = ix == minus_one });
  ncomponents = p.ncomponents + 1;
  has_negix = p.has_negix || ix == minus_one;
}

add_array_index_is :
    (ix : ℕ) (p : SubdocPath)
    → IsReady p
    → size p < 32
    → add_array_index ix p ≡ done tt (with_index ix p)
unfolding add_array_index add
add_array_index_is ix p r h =
    let full : (size p == 32) ≡ false = ground arith in
    let room : size p < length p.components_s = omega (arith, r.array) in
    elim (Bool-cases (ix == minus_one)) [
      | inl e ↦ rw (full, e) (simp (set-set, get_or-set, room) (ground arith))
      | inr e ↦ rw (full, e) (simp (set-set, get_or-set, room) (ground arith))
    ]

-- Every field of a numeric component is written.
pub add_array_index_lem :
    (ix : ℕ) (p : SubdocPath)
    → IsReady p
    → size p < 32
    → (q : SubdocPath) × (add_array_index ix p ≡ done tt q)
      × Extends p q (index ix (ix == minus_one))
add_array_index_lem ix p r h = (
  with_index ix p,
  add_array_index_is ix p r h,
  record {
    parts_are = parts_push p.components_s p.ncomponents _ (omega (arith, r.array));
    size_is = refl;
    negix = refl;
    ready = record { array = length-set p.components_s _ _ ∙ r.array; cached = r.cached };
  },
)

-- the object that `store_key` leaves
abbrev with_key : Bytes → ℕ → SubdocPath → SubdocPath
with_key s len p = record p {
  components_s = set p.components_s p.ncomponents (record (get_component p (size p)) {
    ptype = path_string;
    pstr = some s;
    len = len;
    is_neg = false;
  });
  ncomponents = p.ncomponents + 1;
}

store_key_lem :
    (s : Bytes) (len : ℕ) (p : SubdocPath)
    → IsReady p
    → size p < 32
    → (q : SubdocPath) × (store_key s len p ≡ done tt q) × Extends p q (key s)
unfolding store_key add
store_key_lem s len p r h =
    let room : size p < length p.components_s = omega (arith, r.array) in
    (
      with_key s len p,
      simp (set-set, get_or-set, room) (ground arith),
      record {
        parts_are = parts_push p.components_s p.ncomponents _ room;
        size_is = refl;
        negix = ground arith;
        ready = record { array = length-set p.components_s _ _ ∙ r.array; cached = r.cached };
      },
    )

abbrev AllEmpty : List Bytes → Type 0
AllEmpty = All (λ s. s ≡ [])

take_cached-AllEmpty :
    (cached : List Bytes)
    → AllEmpty cached
    → ((take_cached cached).0 ≡ []) × AllEmpty (take_cached cached).1
take_cached-AllEmpty [] h = (refl, tt)
take_cached-AllEmpty (s ∷ cached) h = h

-- `q` differs from `p` in the string buffers only.
pub record SameParts (p q : SubdocPath) : Type 0 where
  pub parts_are : parts q ≡ parts p
  pub size_is : size q ≡ size p
  pub negix : q.has_negix ≡ p.has_negix
  pub ready : IsReady q

-- With the cached strings cleared, the conversion starts from an empty string.
convert_escaped_lem :
    (src : Bytes) (len : ℕ) (p : SubdocPath)
    → IsReady p
    → (q : SubdocPath) × (convert_escaped src len p ≡ done (unescape (take len src)) q)
      × SameParts p q
unfolding convert_escaped
convert_escaped_lem src len p r =
    let (e, rest) = take_cached-AllEmpty p.m_cached r.cached in
    (
      record p {
        m_cached = (take_cached p.m_cached).1;
        m_used = unescape (take len src) ∷ p.m_used;
      },
      rw e refl,
      record {
        parts_are = refl;
        size_is = refl;
        negix = refl;
        ready = record { array = r.array; cached = rest };
      },
    )

-- The key that a component of `len` bytes stands for.
abbrev pub key_text : Bytes → ℕ → ℕ → Bytes
key_text component len n_backtick =
    if n_backtick == 0 then take len component else unescape (take len component)

pub add_key_lem :
    (component : Bytes) (len n_backtick : ℕ) (p : SubdocPath)
    → IsReady p
    → size p < 32
    → 0 < len
    → (q : SubdocPath) × (add_key component len n_backtick p ≡ done tt q)
      × Extends p q (key (key_text component len n_backtick))
unfolding add_key
add_key_lem component len n_backtick p r h pos =
    let full : (size p == 32) ≡ false = ground arith in
    let some_bytes : (len == 0) ≡ false = ground arith in
    elim (Bool-cases (n_backtick == 0)) [
      | inl e ↦ rw (full, some_bytes, e) (store_key_lem (take len component) len p r h)
      | inr e ↦
          let (q, c, same) = convert_escaped_lem component len p r in
          let s = unescape (take len component) in
          let (q', stored, ext) =
            store_key_lem s (length s) q same.ready (omega (arith, same.size_is)) in
          rw (full, some_bytes, e, ◌>>=◌, c)
            (
              q',
              stored,
              record {
                parts_are = ext.parts_are ∙ ap (λ l. l ++ key s ∷ []) same.parts_are;
                size_is = omega (arith, ext.size_is, same.size_is);
                negix = ext.negix ∙ ap (λ b. b || false) same.negix;
                ready = ext.ready;
              },
            )
    ]
