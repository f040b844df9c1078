-- ===== src/Operations/Guards.antt =====
-- What `op_exec` demands before it changes a document.
use subjson.Jsonsl.{JsonslError}
use subjson.Loc.{empty}
use subjson.Operations.{Engine, Operation}
use subjson.Operations.Exec.{
  dispatch, exec_store, exec_remove, exec_prepend, exec_append, exec_insert, op_exec, exec_parsed,
  validate, if_valid, value_error, get_maxdepth, path_error,
}
use subjson.Loc.{Bytes}
use subjson.Path.{SubdocPath, size}
use subjson.Path.Parse.{Outcome, done, fail, parse, parse_loop}
use subjson.Path.Parse.State.{IsReady}
use subjson.Path.Parse.Total.{start, parse_total, Returns, Any, size-start}
use subjson.Prelude.{
  ℕ, ◌+◌, ◌≤◌, ◌≡◌, ◌⊎◌, inl, inr, refl, subst, ◌≢◌, sym, ◌∙◌, ap, ◌&&◌, [], leb, ◌%◌, arith, Bool,
  true, false, not, ◌||◌, ◌==◌, Bool-cases,
}
use subjson.SubdocApi
use subjson.SubdocApi.{Error, success, value_cantinsert, value_empty}
use subjson.Validate.{ValidateStatus, json}

-- the commands that put their value into the document as it is
abbrev pub takes_value : ℕ → Bool
takes_value c =
    c == SubdocApi.dict_add
    || c == SubdocApi.dict_add_p
    || c == SubdocApi.dict_upsert
    || c == SubdocApi.dict_upsert_p
    || c == SubdocApi.replace
    || c == SubdocApi.array_prepend
    || c == SubdocApi.array_prepend_p
    || c == SubdocApi.array_append
    || c == SubdocApi.array_append_p
    || c == SubdocApi.array_add_unique
    || c == SubdocApi.array_add_unique_p
    || c == SubdocApi.array_insert

-- those among them that address an array
abbrev is_array : ℕ → Bool
is_array c = leb SubdocApi.array_prepend (c % 128) && leb (c % 128) SubdocApi.array_insert

-- The validator accepted the value, at a depth that the path leaves.
abbrev pub Accepted : Engine → Operation → Type 0
Accepted e op =
    (depth : ℕ) × (mode : ℕ) × (e.validate op.m_userval depth mode ≡ json JsonslError.success)
    × (empty op.m_userval ≡ false)
    × (depth + size op.m_path ≤ 33)

value_error_inv : (v : ValidateStatus) → value_error v ≡ success → v ≡ json JsonslError.success
value_error_inv v h = ground arith

-- the validator said yes
pub asked :
    (e : Engine) (mode depth : ℕ) (op : Operation)
    → validate e mode depth op ≡ success
    → e.validate op.m_userval depth mode ≡ json JsonslError.success
asked e mode depth op ok = elim (Bool-cases (empty op.m_userval)) [
  | inl nothing ↦
      let refused : validate e mode depth op ≡ value_empty = unfold validate in rw nothing refl in
      absurd (ground (arith, refused))
  | inr filled ↦
      let said : validate e mode depth op ≡ value_error (e.validate op.m_userval depth mode) =
        unfold validate in rw filled refl in
      value_error_inv _ (sym said ∙ ok)
]

validate_inv :
    (e : Engine) (mode depth : ℕ) (op : Operation)
    → size op.m_path ≤ 32
    → depth + size op.m_path ≤ 33
    → validate e mode depth op ≡ success
    → Accepted e op
validate_inv e mode depth op small h ok = elim (Bool-cases (empty op.m_userval)) [
  | inl nothing ↦
      let refused : validate e mode depth op ≡ value_empty = unfold validate in rw nothing refl in
      absurd (ground (arith, refused))
  | inr filled ↦ (depth, mode, asked e mode depth op ok, filled, h)
]

pub if_valid_inv :
    (status : Error) (op : Operation) (next : Operation → Error × Operation)
    → (if_valid status op next).0 ≡ success
    → status ≡ success
if_valid_inv status op next h = ground arith

module _ (e : Engine) (op : Operation) (bound : size op.m_path ≤ 32) where
  root_refuses : (size op.m_path == 1) ≡ true → (exec_store e op).0 ≡ value_cantinsert
  unfolding exec_store
  root_refuses root = rw root refl

  store_inv : (exec_store e op).0 ≡ success → Accepted e op
  unfolding exec_store get_maxdepth
  store_inv h = elim (Bool-cases (size op.m_path == 1)) [
    | inl root ↦ absurd (ground (arith, root_refuses root))
    | inr deeper ↦ validate_inv e _ _ op bound (omega arith) (if_valid_inv _ _ _ (rw deeper at h))
  ]

  prepend_inv : (exec_prepend e op).0 ≡ success → Accepted e op
  unfolding exec_prepend get_maxdepth
  prepend_inv h = validate_inv e _ _ op bound (omega arith) (if_valid_inv _ _ _ h)

  append_inv : (exec_append e op).0 ≡ success → Accepted e op
  unfolding exec_append get_maxdepth
  append_inv h = validate_inv e _ _ op bound (omega arith) (if_valid_inv _ _ _ h)

  insert_inv : (exec_insert e op).0 ≡ success → Accepted e op
  unfolding exec_insert get_maxdepth
  insert_inv h = validate_inv e _ _ op bound (omega arith) (if_valid_inv _ _ _ h)

  runs :
      takes_value op.m_optype ≡ true
      → (dispatch e op ≡ exec_store e op)
        ⊎ (dispatch e op ≡ exec_prepend e op)
        ⊎ (dispatch e op ≡ exec_append e op)
        ⊎ (dispatch e op ≡ exec_insert e op)
  unfolding dispatch
  runs h = ground arith

  dispatch_inv : takes_value op.m_optype ≡ true → (dispatch e op).0 ≡ success → Accepted e op
  dispatch_inv h ok = elim (runs h) [
    | inl p ↦ store_inv (ap (λ r. r.0) (sym p) ∙ ok)
    | inr (inl p) ↦ prepend_inv (ap (λ r. r.0) (sym p) ∙ ok)
    | inr (inr (inl p)) ↦ append_inv (ap (λ r. r.0) (sym p) ∙ ok)
    | inr (inr (inr p)) ↦ insert_inv (ap (λ r. r.0) (sym p) ∙ ok)
  ]

path_error_fails : (x : JsonslError) → path_error x ≢ success
path_error_fails x h = ground arith

pub exec_parsed_inv :
    (e : Engine) (op : Operation) (o : Outcome (Unit {0}))
    → (exec_parsed e op o).0 ≡ success
    → (q : SubdocPath) × (o ≡ done tt q) × ((dispatch e (record op { m_path = q })).0 ≡ success)
exec_parsed_inv e op (done _ q) h = (q, refl, h)
exec_parsed_inv e op (fail x q) h = absurd (path_error_fails x h)

-- A command that puts its value into the document, other than a counter, succeeds only if the path
-- was parsed and the validator accepted the value, which is not empty, at a depth that with the
-- number of path components is at most 33. The path object was ready.
pub op_exec-Accepted :
    (e : Engine) (pth : Bytes) (op : Operation)
    → IsReady op.m_path
    → takes_value op.m_optype ≡ true
    → (op_exec e pth op).0 ≡ success
    → (q : SubdocPath) × (parse pth op.m_path ≡ done tt q) × Accepted e (record op { m_path = q })
unfolding op_exec
op_exec-Accepted e pth op r h ok =
    let (q, parsed, ran) = exec_parsed_inv e op (parse pth op.m_path) ok in
    (
      q,
      parsed,
      dispatch_inv e (record op { m_path = q })
          (subst (Returns Any) parsed (parse_total pth op.m_path r)).0.upper h ran,
    )

-- the commands that no root takes
abbrev pub needs_parent : ℕ → Bool
needs_parent c = c == SubdocApi.remove || not (is_array c) && takes_value c

dispatch_root :
    (e : Engine) (op : Operation)
    → needs_parent op.m_optype ≡ true
    → (size op.m_path == 1) ≡ true
    → dispatch e op ≡ (value_cantinsert, op)
unfolding dispatch exec_store exec_remove
dispatch_root e op h one = elim (go h) [ inl p ↦ p ∙ rw one refl | inr p ↦ p ∙ rw one refl ]
  where
    go :
        needs_parent op.m_optype ≡ true
        → (dispatch e op ≡ exec_store e op) ⊎ (dispatch e op ≡ exec_remove e op)
    go h = ground arith

-- The empty path is the root: whatever the engine does, the dictionary commands other than a
-- counter, and REMOVE, refuse it with VALUE_CANTINSERT and change nothing but the path.
pub op_exec_root :
    (e : Engine) (op : Operation)
    → (op.m_optype == SubdocApi.remove || not (is_array op.m_optype) && takes_value op.m_optype)
      ≡ true
    → op_exec e [] op ≡ (value_cantinsert, record op { m_path = start op.m_path })
unfolding op_exec
op_exec_root e op h =
    let next = record op { m_path = start op.m_path } in
    let parsed : parse [] op.m_path ≡ done tt (start op.m_path) = unfold parse parse_loop in refl in
    let one : (size (start op.m_path) == 1) ≡ true = ground (arith, size-start op.m_path) in
    rw parsed (dispatch_root e next h one)
