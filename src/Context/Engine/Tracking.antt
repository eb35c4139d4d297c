-- ===== src/Context/Engine/Tracking.antt =====
-- The list that updateSystemSymbol of ContextInferenceEngine returns, and the values that the update
-- changes.
use sctx.Context.Engine.{
  Engine, Queue, poll_from, settle_owner, update_clause, update_clauses, update_loop, value_of,
  is_last, bool_eq, put_value, update_system_symbol,
}
use sctx.Context.Engine.Names.{has_name}
use sctx.Context.Engine.Order.{queued-poll_from}
use sctx.Context.Engine.Pending.{queued}
use sctx.Prelude.{
  ℕ, zero, suc, String, ◌≡◌, Bool, true, false, not, ◌||◌, Option, none, some, List, [], ◌∷◌,
  eq_iff, eq_refl, if◌then◌else◌, Bool-cases, inl, inr, arith, sym, subst,
}

bool_eq_refl : (v : Bool) → bool_eq v v ≡ true
unfolding bool_eq
bool_eq_refl v = ground arith

-- `start` says the values before the update.
module _ (start : String → Bool) where
  -- A name with another value than at the start waits in the queue or is in the list.
  abbrev IsTracked : List String → Engine × Queue → Type 0
  IsTracked listed r =
      (n : String)
      → (bool_eq (value_of r.0 n) (start n) || queued r.1 n || has_name listed n) ≡ true

  IsTracked-update_clause :
      (listed : List String) (name : String) (v : Bool) (e : Engine) (q : Queue) (i : ℕ)
      → IsTracked listed (e, q)
      → IsTracked listed (update_clause name v e q i)
  unfolding update_clause settle_owner queued value_of
  IsTracked-update_clause listed name v e q i t n =
      ground (arith, t n, eq_iff (e.symbols_by_id (e.clause i).owner).name n)

  IsTracked-update_clauses :
      (listed : List String) (name : String) (v : Bool) (is : List ℕ) (e : Engine) (q : Queue)
      → IsTracked listed (e, q)
      → IsTracked listed (update_clauses name v is e q)
  unfolding update_clauses
  IsTracked-update_clauses listed name v [] e q t = t
  IsTracked-update_clauses listed name v (i ∷ is) e q t =
      IsTracked-update_clauses listed name v is (update_clause name v e q i).0
        (update_clause name v e q i).1 (IsTracked-update_clause listed name v e q i t)

  abbrev pub IsComplete : Option (Engine × List String) → Type 0
  IsComplete none = Unit
  IsComplete (some r) = (n : String) → (bool_eq (value_of r.0 n) (start n) || has_name r.1 n) ≡ true

  IsComplete-update_loop :
      (fuel : ℕ) (last : Option String) (q : Queue) (e : Engine) (modified : List String)
      → ((n : String) → is_last last n ≡ true → has_name modified n ≡ true)
      → IsTracked modified (e, q)
      → IsComplete (update_loop fuel last q e modified)
  unfolding update_loop has_name is_last queued
  IsComplete-update_loop zero last q e modified h t = tt
  IsComplete-update_loop (suc fuel) last [] e modified h t = λ n. ground (arith, t n)
  IsComplete-update_loop (suc fuel) last (b ∷ q) e modified h t =
      let n = (poll_from b q).0.1 in
      let rest = (poll_from b q).1 in
      let told = update_clauses n (value_of e n) (e.clauses_of n) e rest in
      let skipped = update_loop fuel last rest e modified in
      let done = update_loop fuel (some n) told.1 told.0 (n ∷ modified) in
      elim (Bool-cases (is_last last n)) [
        | inl again ↦
            subst (λ d. IsComplete (if d then skipped else done)) (sym again)
              (IsComplete-update_loop fuel last rest e modified h
                (λ m. ground (arith, t m, queued-poll_from b q m, eq_iff n m, h n again)))
        | inr fresh ↦
            subst (λ d. IsComplete (if d then skipped else done)) (sym fresh)
              (IsComplete-update_loop fuel (some n) told.1 told.0 (n ∷ modified)
                (λ m same. ground (arith, eq_iff m n, eq_refl n))
                (IsTracked-update_clauses (n ∷ modified) n (value_of e n) (e.clauses_of n) e rest
                  (λ m. ground (arith, t m, queued-poll_from b q m))))
      ]

IsComplete-guarded :
    (e : Engine) (a b : Bool) (o : Option (Engine × List String))
    → IsComplete (value_of e) o
    → IsComplete (value_of e) (if a then some (e, []) else (if b then some (e, []) else o))
unfolding has_name
IsComplete-guarded e true b o h = λ n. ground (arith, bool_eq_refl (value_of e n))
IsComplete-guarded e false true o h = λ n. ground (arith, bool_eq_refl (value_of e n))
IsComplete-guarded e false false o h = h

-- updateSystemSymbol, on any engine, returns a list with every name that has another value after it.
pub update_system_symbol-IsComplete :
    (system : String → Bool) (fuel : ℕ) (e : Engine) (name : String) (value : Bool)
    → IsComplete (value_of e) (update_system_symbol system fuel e name value)
unfolding update_system_symbol value_of is_last queued has_name
update_system_symbol-IsComplete system fuel e name value =
    let started = record e { values = put_value e.values name value } in
    IsComplete-guarded e (not (system name)) (bool_eq (value_of e name) value)
      (update_loop fuel none ((0, name) ∷ []) started [])
      (IsComplete-update_loop (value_of e) fuel none ((0, name) ∷ []) started []
        (λ n same. ground (arith, same))
        (λ n. ground (arith, eq_iff name n, bool_eq_refl (value_of e n))))
