-- ===== src/Util.antt =====
-- subdoc/util.cc: the texts of a match, and the type of the root that a path wants.
use subjson.Jsonsl.{JsonType, t_list, t_object, t_unknown}
use subjson.Loc.{Bytes, to_string}
use subjson.Match.{Match, has_key}
use subjson.Operations.Arrays.{isspace}
use subjson.Prelude.{
  ℕ, ◌≤◌, ◌≢◌, ◌⊎◌, ◌∙◌, ap, sym, List, All, append-nil, false, ◌≡◌, refl, arith, Bool, true, false,
  [], ◌∷◌, ◌++◌, ◌||◌, ◌==◌, if◌then◌else◌,
}
use subjson.SubdocApi
use subjson.SubdocApi.{Command}

abbrev pub match_match : Match → Bytes
match_match m = to_string m.loc_deepest

unfoldable pub match_key : Match → Bytes
unfolding has_key
match_key m = if has_key m then to_string m.loc_key else []

abbrev pub match_parent : Match → Bytes
match_parent m = to_string m.loc_deepest

-- the first byte that is no white space, or 0
unfoldable pub first_char : Bytes → ℕ
first_char [] = 0
first_char (c ∷ s) = elim (isspace c) [ true ↦ first_char s | false ↦ c ]

unfoldable pub get_root_type : Command → Bytes → JsonType
unfolding first_char SubdocApi.base
get_root_type command pth =
    let c = first_char pth in
    let base = SubdocApi.base command in
    if c == 0
    then (if base == SubdocApi.array_append
          || base == SubdocApi.array_prepend
          || base == SubdocApi.array_add_unique
        then t_list
        else t_unknown)
    else if c == b'['
    then t_list
    else t_object

-- the white space of the C locale
abbrev pub Blank : ℕ → Type 0
Blank c = (c ≡ 0x20) ⊎ ((0x09 ≤ c) × (c ≤ 0x0d))

first_char-Blank : (ws s : Bytes) → All Blank ws → first_char (ws ++ s) ≡ first_char s
unfolding first_char
first_char-Blank [] s h = refl
first_char-Blank (c ∷ ws) s (blank, h) =
    let space : isspace c ≡ true = ground arith in
    let ih = first_char-Blank ws s h in rw (space, first_char) ih

first_char_solid : (c : ℕ) (s : Bytes) → ¬ Blank c → first_char (c ∷ s) ≡ c
unfolding first_char
first_char_solid c s h = let solid : isspace c ≡ false = ground arith in rw (solid, first_char) refl

-- the commands that make an array of a root that is not there, and the others
abbrev pub array_commands : List Command
array_commands =
    SubdocApi.array_append ∷ SubdocApi.array_append_p ∷ SubdocApi.array_prepend
    ∷ SubdocApi.array_prepend_p ∷ SubdocApi.array_add_unique ∷ SubdocApi.array_add_unique_p ∷ []

abbrev pub other_commands : List Command
other_commands =
    SubdocApi.get ∷ SubdocApi.exists ∷ SubdocApi.replace ∷ SubdocApi.remove ∷ SubdocApi.dict_upsert
    ∷ SubdocApi.dict_upsert_p ∷ SubdocApi.dict_add ∷ SubdocApi.dict_add_p ∷ SubdocApi.array_insert
    ∷ SubdocApi.counter ∷ SubdocApi.counter_p ∷ SubdocApi.get_count ∷ []

root_of_none :
    (command : Command) (ws : Bytes)
    → All Blank ws
    → get_root_type command ws ≡ (
        if SubdocApi.base command == SubdocApi.array_append
          || SubdocApi.base command == SubdocApi.array_prepend
          || SubdocApi.base command == SubdocApi.array_add_unique
        then t_list
        else t_unknown)
unfolding get_root_type first_char
root_of_none command ws h =
    let e = ap first_char (sym (append-nil ws)) ∙ first_char-Blank ws [] h in rw e refl

abbrev grows : Command → Bool
grows command =
    SubdocApi.base command == SubdocApi.array_append
    || SubdocApi.base command == SubdocApi.array_prepend
    || SubdocApi.base command == SubdocApi.array_add_unique

array_roots :
    (ws : Bytes)
    → All Blank ws
    → (commands : List Command) → All (λ command. grows command ≡ true) commands
    → All (λ command. get_root_type command ws ≡ t_list) commands
array_roots ws h [] all = tt
array_roots ws h (c ∷ cs) (this, all) = (
  root_of_none c ws h ∙ ap (λ (b : Bool). if b then t_list else t_unknown) this,
  array_roots ws h cs all,
)

other_roots :
    (ws : Bytes)
    → All Blank ws
    → (commands : List Command) → All (λ command. grows command ≡ false) commands
    → All (λ command. get_root_type command ws ≡ t_unknown) commands
other_roots ws h [] all = tt
other_roots ws h (c ∷ cs) (this, all) = (
  root_of_none c ws h ∙ ap (λ (b : Bool). if b then t_list else t_unknown) this,
  other_roots ws h cs all,
)

-- What the root is to be, behind white space: an array where the path starts with a bracket, an
-- object where it starts with anything else but NUL; for the empty path an array with the commands
-- that append, prepend or add to one, and unknown with the others.
pub get_root_type_cases :
    (ws : Bytes)
    → All Blank ws
    → ((command : Command) (s : Bytes) → get_root_type command (ws ++ b'[' ∷ s) ≡ t_list)
      × ((command : Command) (c : ℕ) (s : Bytes)
          → ¬ Blank c
          → c ≢ 0
          → c ≢ b'['
          → get_root_type command (ws ++ c ∷ s) ≡ t_object)
      × All (λ command. get_root_type command ws ≡ t_list) array_commands
      × All (λ command. get_root_type command ws ≡ t_unknown) other_commands
unfolding get_root_type SubdocApi.base
get_root_type_cases ws h = (
  λ command s.
      let e = first_char-Blank ws (b'[' ∷ s) h ∙ first_char_solid b'[' s (λ k. ground arith) in
      rw e refl,
  λ command c s solid nonzero other.
      let e = first_char-Blank ws (c ∷ s) h ∙ first_char_solid c s solid in
      let here : (c == 0) ≡ false = ground arith in
      let there : (c == b'[') ≡ false = ground arith in rw (e, here, there) refl,
  array_roots ws h array_commands (refl, (refl, (refl, (refl, (refl, (refl, tt)))))),
  other_roots ws h other_commands (
    refl,
    (refl, (refl, (refl, (refl, (refl, (refl, (refl, (refl, (refl, (refl, (refl, tt))))))))))),
  ),
)
