-- ===== src/Validate/Reads.antt =====
-- The feeds of `Validator::validate` in subdoc/match.cc around the elements of an array, and what they
-- say of its answer.
use subjson.Jsonsl.{JsonslError}
use subjson.Loc.{Loc, to_view}
use subjson.Match.Callbacks.{invoke, invoke_error}
use subjson.Operations.Store.{literal}
use subjson.Parser.{push, pop, ValidateCtx, validating, Jsn, Parser}
use subjson.Parser.Trace.{Event, event, Feeds}
use subjson.Parser.Tree.{
  Items, arr, item_actions, items_text, pop_offset, Stale, push_token, pop_token,
}
use subjson.Prelude.{
  ℕ, ◌+◌, ◌≡◌, ap, true, false, bit_and, List, [], ◌∷◌, ◌++◌, inl, inr, Bool-cases, some,
}
use subjson.Validate.{ValidateStatus, json, parent_array}
use subjson.Validate.Chunks.{is_success-eq}
use subjson.Validate.Elements.{outcome}
use subjson.Validate.Run.{
  validate, validate_as, feed_wrapped, prepare, wrapper, final_error, err_of, is_success,
  value_mask, parent_mask,
}

abbrev pub pre : Loc
pre = literal (b'[' ∷ [])

abbrev pub post : Loc
post = literal (b']' ∷ [])

abbrev pub open_list : (ℕ → Stale) → Items → ℕ → List Event
open_list stale items n = event push 0 n 0 (push_token stale (arr items) 0) ∷ []

abbrev pub close_list : (ℕ → Stale) → Items → ℕ → List Event
close_list stale items n =
    event pop 0 n (pop_offset (arr items)) (pop_token stale (arr items) 0) ∷ []

-- The parser reads a bracket, the text of the elements, and a bracket: the actions are those on the
-- array, of which the feed of the value gives `es` and the last bracket `es'`.
pub record Reads (p : Parser) (value : Loc) (items : Items) (stale : ℕ → Stale) (n : ℕ)
    (es es' : List Event) : Type 0 where
  pub reads_text : to_view value ≡ items_text items
  pub cut : es ++ es' ≡ item_actions stale items 1 0 1 (close_list stale items n)
  pub opened : Feeds p [] pre (open_list stale items n)
  pub valued : Feeds p ((pre, open_list stale items n) ∷ []) value es
  pub closed : Feeds p ((pre, open_list stale items n) ∷ (value, es) ∷ []) post es'

abbrev pub ctx_first : ℕ → ℕ → ValidateCtx
ctx_first flags maxdepth = record {
  err = json JsonslError.success;
  rootcount = 0;
  flags = flags;
  maxdepth = some (maxdepth + 1);
}

-- behind the opening bracket
abbrev pub ctx_open : ℕ → ℕ → ValidateCtx
ctx_open flags maxdepth = record (ctx_first flags maxdepth) { rootcount = 1 }

pub final-outcome :
    (e : ValidateStatus) (flags maxdepth : ℕ)
    → final_error (validating (outcome e (ctx_open flags maxdepth))) ≡ e
final-outcome e flags maxdepth = elim (Bool-cases (is_success e)) [
  | inl good ↦ let same = is_success-eq e good in rw (same)
  | inr bad ↦ rw (bad, bad)
]

pub validate_array :
    (p : Parser) (value : Loc) (maxdepth mode : ℕ) (j : Jsn)
    → bit_and mode parent_mask ≡ parent_array
    → (validate p value (some maxdepth) mode j).0
      ≡ final_error
          (feed_wrapped p value
            (pre, post)
            (prepare (bit_and mode value_mask) (some (maxdepth + 1)) j)).context
unfolding validate validate_as wrapper
validate_array p value maxdepth mode j h =
    ap (λ (type : ℕ). (validate_as p value (some maxdepth) type (bit_and mode value_mask) j).0) h

-- the feed of the wrapper behind the value, unless there was an error
pub wrapped_live :
    (p : Parser) (value : Loc) (j k : Jsn)
    → p.feed (invoke p) invoke_error value (p.feed (invoke p) invoke_error pre j) ≡ k
    → is_success (err_of k) ≡ true
    → feed_wrapped p value (pre, post) j ≡ p.feed (invoke p) invoke_error post k
unfolding feed_wrapped
wrapped_live p value j k e good = rw (e, good)

pub wrapped_dead :
    (p : Parser) (value : Loc) (j k : Jsn)
    → p.feed (invoke p) invoke_error value (p.feed (invoke p) invoke_error pre j) ≡ k
    → is_success (err_of k) ≡ false
    → feed_wrapped p value (pre, post) j ≡ k
unfolding feed_wrapped
wrapped_dead p value j k e bad = rw (e, bad)
