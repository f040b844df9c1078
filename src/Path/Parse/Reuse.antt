-- ===== src/Path/Parse/Reuse.antt =====
-- `clear` makes the object ready for the next path.
use subjson.Loc.{Bytes}
use subjson.Path.{Component, SubdocPath, size}
use subjson.Path.Parse.{Outcome, done, fail, parse, clear, clear_slots, clear_components}
use subjson.Path.Parse.State.{IsReady}
use subjson.Path.Parse.Total.{parse_total, Returns, Any}
use subjson.Prelude.{
  ℕ, zero, suc, ◌-◌, ◌≡◌, refl, ap, ◌∙◌, List, [], ◌∷◌, map, length, All, All-append,
}

length-clear_slots : (n : ℕ) (cs : List Component) → length (clear_slots n cs) ≡ length cs
length-clear_slots n [] = refl
length-clear_slots zero (c ∷ cs) = refl
length-clear_slots (suc n) (c ∷ cs) = ap suc (length-clear_slots n cs)

length-clear_components : (n : ℕ) (cs : List Component) → length (clear_components n cs) ≡ length cs
length-clear_components n [] = refl
length-clear_components n (c ∷ cs) = ap suc (length-clear_slots (n - 1) cs)

-- the strings that are not in use are empty
abbrev AllEmpty : List Bytes → Type 0
AllEmpty = All (λ (s : Bytes). s ≡ [])

emptied : (used : List Bytes) → AllEmpty (map (λ s. []) used)
emptied [] = tt
emptied (s ∷ used) = (refl, emptied used)

clear-IsReady : (p : SubdocPath) → IsReady p → IsReady (clear p)
unfolding clear
clear-IsReady p r = record {
  array = length-clear_components (size p) p.components_s ∙ r.array;
  cached = All-append _ p.m_cached (map (λ s. []) p.m_used) r.cached (emptied p.m_used);
}

-- the object that a parse leaves
abbrev pub left : Outcome (Unit {0}) → SubdocPath
left (done _ q) = q
left (fail e q) = q

left-IsReady : (o : Outcome (Unit {0})) → Returns Any o → IsReady (left o)
left-IsReady (done _ q) r = r.0.ready
left-IsReady (fail e q) r = r.0.ready

-- An object that is ready for a parse is ready for another one when it has parsed any path, with
-- success or not, and has been cleared.
pub clear-parse :
    (path : Bytes) (p : SubdocPath) → IsReady p → IsReady (clear (left (parse path p)))
clear-parse path p r =
    clear-IsReady (left (parse path p)) (left-IsReady (parse path p) (parse_total path p r))
