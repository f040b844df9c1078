-- ===== src/Operations/Composed.antt =====
-- subdoc/operations.cc on top of subdoc/match.cc: `op_exec` with the matcher and the validator of the
-- repository, on a parser object that was reset.
use subjson.Jsonsl.{JsonslError}
use subjson.Loc.{Bytes}
use subjson.Match.Search.{exec_match}
use subjson.Operations.{Engine, Operation}
use subjson.Operations.Exec.{
  dispatch, op_exec, exec_prepend, exec_append, exec_insert, append_mode, get_maxdepth,
  path_is_parent,
}
use subjson.Parser.{Jsn, Parser}
use subjson.Parser.Trace.{Event, IsReset}
use subjson.Parser.Tree.{Items, Stale}
use subjson.Path.{SubdocPath, size}
use subjson.Path.Parse.{parse, done}
use subjson.Path.Parse.State.{IsReady}
use subjson.Prelude.{
  ℕ, ◌+◌, ◌≤◌, ◌≡◌, List, subst, inl, inr, ◌⊎◌, ◌||◌, ◌==◌, Bool, true, false, refl, some, arith,
  ap, ◌∙◌, sym,
}
use subjson.Path.Parse.Total.{parse_total, Returns, Any}
use subjson.Operations.Exec
use subjson.Operations.Guards.{exec_parsed_inv, if_valid_inv, asked}
use subjson.SubdocApi
use subjson.SubdocApi.{success}
use subjson.Validate.{json, parent_array}
use subjson.Validate.Accepts.{Acceptable, array_mode, validate-Acceptable}
use subjson.Validate.Run.{validate}
use subjson.Validate.Reads.{Reads}

-- The object `m_jsn` is reset behind each use; what a reset keeps is set again before the next.
unfoldable pub engine : Parser → Jsn → Engine
unfolding exec_match validate
engine p j = record {
  exec_match = λ m value pth. (exec_match p m value pth j).0;
  validate = λ value depth mode. (validate p value (some depth) mode j).0;
}

-- the commands that validate elements of an array
abbrev pub adds_elements : ℕ → Bool
adds_elements c =
    c == SubdocApi.array_prepend
    || c == SubdocApi.array_prepend_p
    || c == SubdocApi.array_append
    || c == SubdocApi.array_append_p
    || c == SubdocApi.array_add_unique
    || c == SubdocApi.array_add_unique_p
    || c == SubdocApi.array_insert

not_unique :
    (op : Operation) (c : ℕ)
    → op.m_optype ≡ c
    → SubdocApi.base c == SubdocApi.array_add_unique ≡ false
    → append_mode op ≡ parent_array
not_unique op c h plain =
    let e = ap (λ (k : ℕ). SubdocApi.base k == SubdocApi.array_add_unique) h ∙ plain in rw e refl

module _ (e : Engine) (op : Operation) where
  commands :
      adds_elements op.m_optype ≡ true
      → ((op.m_optype ≡ SubdocApi.array_prepend) ⊎ (op.m_optype ≡ SubdocApi.array_prepend_p))
        ⊎ (dispatch e op ≡ exec_append e op)
        ⊎ (op.m_optype ≡ SubdocApi.array_insert)
  unfolding dispatch
  commands h = ground arith

  runs_prepend :
      (op.m_optype ≡ SubdocApi.array_prepend) ⊎ (op.m_optype ≡ SubdocApi.array_prepend_p)
      → dispatch e op ≡ exec_prepend e op
  unfolding dispatch
  runs_prepend h = ground arith

  runs_insert : op.m_optype ≡ SubdocApi.array_insert → dispatch e op ≡ exec_insert e op
  unfolding dispatch
  runs_insert h = ground arith

  prepend_mode :
      (op.m_optype ≡ SubdocApi.array_prepend) ⊎ (op.m_optype ≡ SubdocApi.array_prepend_p)
      → append_mode op ≡ parent_array
  unfolding SubdocApi.base
  prepend_mode (inl h) = not_unique op SubdocApi.array_prepend h refl
  prepend_mode (inr h) = not_unique op SubdocApi.array_prepend_p h refl

  insert_mode : op.m_optype ≡ SubdocApi.array_insert → append_mode op ≡ parent_array
  unfolding SubdocApi.base
  insert_mode h = not_unique op SubdocApi.array_insert h refl

  -- What the validator accepted: the value in the mode of the command.
  abbrev Passed : Type 0
  Passed =
      (depth : ℕ) × (e.validate op.m_userval depth (append_mode op) ≡ json JsonslError.success)
      × (depth + size op.m_path ≤ 33)

  passed_in :
      (mode depth : ℕ)
      → size op.m_path ≤ 32
      → depth + size op.m_path ≤ 33
      → append_mode op ≡ mode
      → Exec.validate e mode depth op ≡ success
      → Passed
  passed_in mode depth small h same ok =
      let a = asked e mode depth op ok in (depth, ap (e.validate op.m_userval depth) same ∙ a, h)

  pub array_inv :
      size op.m_path ≤ 32 → adds_elements op.m_optype ≡ true → (dispatch e op).0 ≡ success → Passed
  unfolding exec_append exec_prepend exec_insert get_maxdepth
  array_inv small h ok = elim (commands h) [
    | inl c ↦
        passed_in parent_array _ small (omega arith) (prepend_mode c)
          (if_valid_inv _ _ _ (ap (λ r. r.0) (sym (runs_prepend c)) ∙ ok))
    | inr (inl c) ↦
        passed_in (append_mode op) _ small (omega arith) refl
          (if_valid_inv _ _ _ (ap (λ r. r.0) (sym c) ∙ ok))
    | inr (inr c) ↦
        passed_in parent_array _ small (omega arith) (insert_mode c)
          (if_valid_inv _ _ _ (ap (λ r. r.0) (sym (runs_insert c)) ∙ ok))
  ]

-- the commands that ask for a single element that is neither an array nor an object
abbrev pub is_unique : ℕ → Bool
is_unique c = c == SubdocApi.array_add_unique || c == SubdocApi.array_add_unique_p

one_of :
    (c : ℕ)
    → adds_elements c ≡ true
    → (c ≡ SubdocApi.array_prepend)
      ⊎ ((c ≡ SubdocApi.array_prepend_p)
          ⊎ ((c ≡ SubdocApi.array_append)
              ⊎ ((c ≡ SubdocApi.array_append_p)
                  ⊎ ((c ≡ SubdocApi.array_add_unique)
                      ⊎ ((c ≡ SubdocApi.array_add_unique_p) ⊎ ((c ≡ SubdocApi.array_insert)))))))
one_of c h = ground arith

append_mode-array_mode :
    (op : Operation)
    → adds_elements op.m_optype ≡ true
    → append_mode op ≡ array_mode (is_unique op.m_optype) (is_unique op.m_optype)
unfolding SubdocApi.base
append_mode-array_mode op h = elim (one_of op.m_optype h) [
  | inl e ↦ rw e refl
  | inr (inl e) ↦ rw e refl
  | inr (inr (inl e)) ↦ rw e refl
  | inr (inr (inr (inl e))) ↦ rw e refl
  | inr (inr (inr (inr (inl e)))) ↦ rw e refl
  | inr (inr (inr (inr (inr (inl e))))) ↦ rw e refl
  | inr (inr (inr (inr (inr (inr e))))) ↦ rw e refl
]

-- An array command that succeeds was given elements that fit: none deeper than a bound that with the
-- number of path components is at most 33, and for ARRAY_ADD_UNIQUE and ARRAY_ADD_UNIQUE_P at most
-- one, which is neither an array nor an object. The path object was ready, the parser object reset,
-- and the parser reads the value as these elements.
pub op_exec-Acceptable :
    (p : Parser) (j : Jsn) (pth : Bytes) (op : Operation) (items : Items) (stale : ℕ → Stale)
    (n : ℕ) (es es' : List Event)
    → IsReady op.m_path
    → IsReset j
    → Reads p op.m_userval items stale n es es'
    → adds_elements op.m_optype ≡ true
    → (op_exec (engine p j) pth op).0 ≡ success
    → (q : SubdocPath) × (parse pth op.m_path ≡ done tt q)
      × (depth : ℕ) × (depth + size q ≤ 33)
      × Acceptable depth (is_unique op.m_optype) (is_unique op.m_optype) 0 items
unfolding op_exec engine
op_exec-Acceptable p j pth op items stale n es es' r fresh reads h ok =
    let (q, parsed, ran) = exec_parsed_inv (engine p j) op (parse pth op.m_path) ok in
    let small = (subst (Returns Any) parsed (parse_total pth op.m_path r)).0.upper in
    let (depth, valid, fits) = array_inv (engine p j) (record op { m_path = q }) small h ran in
    let one = is_unique op.m_optype in
    let iff = validate-Acceptable p op.m_userval items stale n depth one one es es' j reads fresh in
    let asked_mode =
      ap (λ (m : ℕ). (validate p op.m_userval (some depth) m j).0) (append_mode-array_mode op h) in
    (q, parsed, depth, fits, iff.0 (sym asked_mode ∙ valid))
