-- ===== src/Context/Engine/Once.antt =====
-- The names that updateSystemSymbol of ContextInferenceEngine reports, and their number.
use sctx.Context.Engine.{Engine, update_system_symbol}
use sctx.Context.Engine.Names.{is_named, has_name, distinct_names, all_named}
use sctx.Context.Engine.Parse.Valid.{Valid}
use sctx.Context.Engine.Update.{enough_fuel, key_name, update_system_symbol-Updated}
use sctx.Context.Text.{has_at}
use sctx.Prelude.{
  ℕ, zero, suc, ◌≤◌, String, ◌≡◌, refl, Bool, true, false, not, ◌&&◌, Option, none, some, List, [],
  ◌∷◌, if◌then◌else◌, str_eq, eq_iff, arith, sym, subst, length,
}

unfoldable drop_name : List String → String → List String
drop_name [] n = []
drop_name (m ∷ ms) n = let rest = drop_name ms n in if str_eq m n then rest else m ∷ rest

has_name-drop_name :
    (ms : List String) (n m : String)
    → has_name (drop_name ms n) m ≡ (has_name ms m && not (str_eq n m))
unfolding drop_name has_name
has_name-drop_name [] n m = refl
has_name-drop_name (l ∷ ms) n m =
    ground (arith, has_name-drop_name ms n m, eq_iff l n, eq_iff l m, eq_iff n m)

drop_name-absent : (ms : List String) (n : String) → has_name ms n ≡ false → drop_name ms n ≡ ms
unfolding drop_name has_name
drop_name-absent [] n h = refl
drop_name-absent (m ∷ ms) n h = ground (arith, drop_name-absent ms n, h)

distinct_names-drop_name :
    (ms : List String) (n : String)
    → distinct_names ms ≡ true
    → distinct_names (drop_name ms n) ≡ true
unfolding drop_name distinct_names
distinct_names-drop_name [] n h = refl
distinct_names-drop_name (m ∷ ms) n h =
    ground (arith, distinct_names-drop_name ms n, has_name-drop_name ms n m, h)

length-drop_name :
    (ms : List String) (n : String)
    → distinct_names ms ≡ true
    → length ms ≤ suc (length (drop_name ms n))
unfolding drop_name distinct_names
length-drop_name [] n h = omega arith
length-drop_name (m ∷ ms) n h =
    ground (arith, length-drop_name ms n, drop_name-absent ms n, eq_iff m n, h)

all_named-drop_name :
    (names : ℕ → String) (k : ℕ) (ms : List String)
    → all_named names (suc k) ms ≡ true
    → all_named names k (drop_name ms (names k)) ≡ true
unfolding drop_name all_named is_named
all_named-drop_name names k [] h = refl
all_named-drop_name names k (m ∷ ms) h =
    ground (arith, all_named-drop_name names k ms, eq_iff m (names k), eq_iff (names k) m, h)

-- A list of names of the first `k` keys, none twice, has at most `k`.
length-distinct :
    (names : ℕ → String) (k : ℕ) (ms : List String)
    → all_named names k ms ≡ true
    → distinct_names ms ≡ true
    → length ms ≤ k
unfolding all_named is_named
length-distinct names zero [] h d = omega arith
length-distinct names zero (m ∷ ms) h d = absurd (ground (arith, h))
length-distinct names (suc k) ms h d =
    let fewer =
      length-distinct names k (drop_name ms (names k)) (all_named-drop_name names k ms h)
        (distinct_names-drop_name ms (names k) d) in
    omega (arith, length-drop_name ms (names k) d, fewer)

-- The result has no name twice, and at most `k` names.
abbrev pub IsOnce : ℕ → Option (Engine × List String) → Type 0
IsOnce k none = ⊥
IsOnce k (some r) = (distinct_names r.1 ≡ true) × (length r.1 ≤ k)

-- On a valid engine, updateSystemSymbol of a system name with enough fuel ends, and the list that it
-- returns has no name twice and at most one name more than there are symbols.
pub update_system_symbol-IsOnce :
    (e : Engine) (name : String) (value : Bool) (fuel : ℕ)
    → Valid e
    → has_at name ≡ true
    → enough_fuel e name ≤ fuel
    → IsOnce (suc e.size) (update_system_symbol has_at fuel e name value)
update_system_symbol-IsOnce e name value fuel valid at h =
    let u =
      update_system_symbol-Updated has_at e name value valid.consistent
        (λ j l. (valid.spelled j l).1) at fuel h in
    subst (IsOnce (suc e.size)) (sym u.returned)
      (u.once, length-distinct (key_name e name) (suc e.size) u.modified u.listed u.once)
