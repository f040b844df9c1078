-- ===== src/HashKey.antt =====
-- subdoc/hkesc.h: the key of an object's member, with its escapes converted on demand.
use subjson.Loc.{Bytes, Loc, Ptr, nullptr, ptr, ptr_add, ptr_sub, assign, to_view, bytes_at}
use subjson.Prelude.Words.{add64, sub64}
use subjson.Prelude.{
  ℕ, ◌+◌, ◌<◌, ◌^◌, ◌≡◌, refl, sym, ap, ◌∙◌, arith, Bool, true, false, not, Bool-cases, inl, inr,
  [], ◌∷◌, ◌++◌, append_assoc, ◌==◌, if◌then◌else◌, length, length-append, take, take-append,
  take_all, drop-append,
}
use subjson.Uescape.{convert}

pub record HashKey : Type 0 where
  pub m_hkbuf : Ptr
  pub m_hklen : ℕ
  pub m_hkesc : Bool
  pub m_strvalid : Bool
  pub m_hkstr : Bytes

abbrev pub hash_key_new : HashKey
hash_key_new = record {
  m_hkbuf = nullptr;
  m_hklen = 0;
  m_hkesc = false;
  m_strvalid = false;
  m_hkstr = [];
}

unfoldable pub set_hk_begin : HashKey → Ptr → HashKey
set_hk_begin hk at = record hk { m_strvalid = false; m_hkbuf = ptr_add at 1 }

-- The fields that are read of the parser's state are `pos_begin`, `pos_cur` and `nescapes`.
unfoldable pub set_hk_end : HashKey → ℕ → ℕ → ℕ → HashKey
set_hk_end hk pos_begin pos_cur nescapes = record hk {
  m_hklen = sub64 pos_cur (add64 pos_begin 1);
  m_hkesc = not (nescapes == 0);
}

-- The key, as a pointer with its length. The status of the conversion is not looked at.
unfoldable pub get_hk : HashKey → Loc × HashKey
get_hk hk =
    let converted = (convert (take hk.m_hklen (bytes_at hk.m_hkbuf)) []).1 in
    if not hk.m_hkesc
    then (assign hk.m_hkbuf hk.m_hklen, hk)
    else if hk.m_strvalid
    then (assign (ptr hk.m_hkstr 0) (length hk.m_hkstr), hk)
    else (
      assign (ptr converted 0) (length converted),
      record hk { m_hkstr = converted; m_strvalid = true },
    )

unfoldable pub hk_rawloc : HashKey → Loc
hk_rawloc hk = record { at = ptr_sub hk.m_hkbuf 1; length = add64 hk.m_hklen 2 }

-- the object after the callbacks at the two quotes of the key `k`
abbrev pub keyed : HashKey → Bytes → Bytes → Bytes → ℕ → ℕ → HashKey
keyed hk pre k post pos nescapes =
    set_hk_end (set_hk_begin hk (ptr (pre ++ b'"' ∷ (k ++ b'"' ∷ post)) (length pre))) pos
      (pos + 1 + length k) nescapes

module _ (hk : HashKey) (pre k post : Bytes) (pos nescapes : ℕ)
    (small : length (pre ++ b'"' ∷ (k ++ b'"' ∷ post)) < 2 ^ 63)
    (early : pos + length k < 2 ^ 63) where
  length_doc : length (pre ++ b'"' ∷ (k ++ b'"' ∷ post)) ≡ length pre + length k + length post + 2
  length_doc =
      omega (
        arith,
        length-append {0} pre (b'"' ∷ (k ++ b'"' ∷ post)),
        length-append {0} k (b'"' ∷ post),
      )

  key_length : sub64 (pos + 1 + length k) (add64 pos 1) ≡ length k
  unfolding add64 sub64
  key_length = omega arith

  behind_quote : add64 (length pre) 1 ≡ length pre + 1
  unfolding add64
  behind_quote = omega (arith, length_doc)

  key_at :
      take
        (keyed hk pre k post pos nescapes).m_hklen
        (bytes_at (keyed hk pre k post pos nescapes).m_hkbuf)
      ≡ k
  unfolding set_hk_end set_hk_begin
  key_at =
      let front = pre ++ b'"' ∷ [] in
      let size : length pre + 1 ≡ length front = omega (arith, length-append {0} pre (b'"' ∷ [])) in
      rw (key_length, behind_quote, ← append_assoc pre (b'"' ∷ []) (k ++ b'"' ∷ post))
        (ap (take (length k)) (drop-append (length pre + 1) front (k ++ b'"' ∷ post) size)
          ∙ take-append (length k) k (b'"' ∷ post) refl)

  -- After the callbacks at the two quotes of a key in a document shorter than 2 ^ 63 bytes, with the
  -- parser's position below that, the key that is read is the bytes between the quotes if the parser saw no escape in it, else
  -- what the converter makes of them. A second call gives the same key.
  pub get_hk-key :
      (to_view (get_hk (keyed hk pre k post pos nescapes)).0
        ≡ (if nescapes == 0 then k else (convert k []).1))
      × (to_view (get_hk (get_hk (keyed hk pre k post pos nescapes)).1).0
          ≡ to_view (get_hk (keyed hk pre k post pos nescapes)).0)
  unfolding get_hk set_hk_end set_hk_begin
  get_hk-key =
      let string =
        take (keyed hk pre k post pos nescapes).m_hklen
          (bytes_at (keyed hk pre k post pos nescapes).m_hkbuf) in
      let converted = (convert string []).1 in
      elim (Bool-cases (nescapes == 0)) [
        | inl plain ↦ rw plain (key_at, refl)
        | inr escaped ↦ rw escaped (
          take_all (length converted) converted (omega arith) ∙ ap (λ t. (convert t []).1) key_at,
          refl,
        )
      ]

  -- After the callbacks at the two quotes of a key in a document shorter than 2 ^ 63 bytes, with the
  -- parser's position below that, the raw location of the key is the key with its quotes.
  pub hk_rawloc-key :
      to_view (hk_rawloc (keyed hk pre k post pos nescapes)) ≡ b'"' ∷ (k ++ b'"' ∷ [])
  unfolding hk_rawloc set_hk_end set_hk_begin
  hk_rawloc-key =
      let at : sub64 (length pre + 1) 1 ≡ length pre = unfold sub64 in omega (arith, length_doc) in
      let size : add64 (length k) 2 ≡ length k + 2 = unfold add64 in omega (arith, length_doc) in
      rw (key_length, behind_quote, at, size)
        (ap (take (length k + 2)) (drop-append (length pre) pre (b'"' ∷ (k ++ b'"' ∷ post)) refl)
          ∙ ap (take (length k + 2)) (ap (λ t. b'"' ∷ t) (sym (append_assoc k (b'"' ∷ []) post)))
          ∙ take-append (length k + 2) (b'"' ∷ (k ++ b'"' ∷ [])) post
              (omega (arith, length-append {0} k (b'"' ∷ []))))
