-- ===== src/Context/Engine.antt =====
-- ContextInferenceEngine of src/org/sctx: symbols that hold when one of their clauses holds, and
-- updateSystemSymbol, which carries a change of a system symbol through them.
pub mod Marks
pub mod Counts
pub mod Invariant
pub mod Pending
pub mod Order
pub mod Names
pub mod Round
pub mod Loop
pub mod Truth
pub mod Update
pub mod Parse
pub mod Tracking
pub mod Fuel
pub mod Once
pub mod Listed
pub mod Reach
pub mod Reset
use sctx.Prelude.{
  ℕ, zero, suc, ◌+◌, ◌-◌, String, Bool, true, false, not, ◌||◌, Option, none, some, List, [], ◌∷◌,
  ◌==◌, ltb, leb, str_eq, if◌then◌else◌,
}

unfoldable pub bool_eq : Bool → Bool → Bool
bool_eq true b = b
bool_eq false b = not b

-- The value of a literal in the map of a clause: 0 and 1 for a literal that waits for its symbol to
-- become true or false, 2 and 3 for one whose symbol is true or false as it asks.
pub data Mark : Type 0 where
  wait_true wait_false met_true met_false : Mark

-- A clause object; `owner` is the id of its symbol.
pub record Clause : Type 0 where
  pub owner : ℕ
  pub waiting_count : ℕ
  pub symbols : List (String × Mark)

-- A symbol that rules define. Its id is its place in symbolsById, its clauses are the objects that
-- name it as their owner.
pub record ContextSymbol : Type 0 where
  pub name : String
  pub hold_count : ℕ

-- The engine: `values` is the map `symbols`, `clauses_of` the map `clauses` with the empty set for
-- an absent key. Clause objects live at `clause 0` to `clause (clause_count - 1)`. A set is a list,
-- in the order of its iterator.
pub record Engine : Type 0 where
  pub values : String → Option Bool
  pub clauses_of : String → List ℕ
  pub symbols_by_id : ℕ → ContextSymbol
  pub size : ℕ
  pub clause : ℕ → Clause
  pub clause_count : ℕ

-- Whether a set has a clause.
unfoldable pub includes : List ℕ → ℕ → Bool
includes [] i = false
includes (j ∷ is) i = (j == i) || includes is i

unfoldable pub get_mark : List (String × Mark) → String → Option Mark
get_mark [] k = none
get_mark ((j, m) ∷ s) k = if str_eq j k then some m else get_mark s k

-- `put` on a key that is there.
unfoldable pub put_mark : List (String × Mark) → String → Mark → List (String × Mark)
put_mark [] k m = []
put_mark ((j, n) ∷ s) k m = if str_eq j k then (j, m) ∷ s else (j, n) ∷ put_mark s k m

unfoldable pub notify_mark : Mark → Bool → Mark
notify_mark wait_true true = met_true
notify_mark wait_false false = met_false
notify_mark met_true false = wait_true
notify_mark met_false true = wait_false
notify_mark m _ = m

-- The count of the literals that wait, after a literal was notified.
unfoldable pub notify_count : Mark → Bool → ℕ → ℕ
notify_count wait_true true n = n - 1
notify_count wait_false false n = n - 1
notify_count met_true false n = n + 1
notify_count met_false true n = n + 1
notify_count m _ n = n

unfoldable pub notify_symbol : Clause → String → Bool → Clause
unfolding get_mark put_mark notify_mark notify_count
notify_symbol c sym v = elim (get_mark c.symbols sym) [
  | none ↦ c
  | some m ↦ record c {
    waiting_count = notify_count m v c.waiting_count;
    symbols = put_mark c.symbols sym (notify_mark m v);
  }
]

unfoldable pub holds : Clause → Bool
holds c = c.waiting_count == 0

-- Queue nodes: the id of a symbol plus one, 0 for the id -1 of system symbols, and the name.
abbrev pub Queue : Type 0
Queue = List (ℕ × String)

-- PriorityQueue.poll: a node with the least id, and the rest.
unfoldable pub poll_from : ℕ × String → Queue → (ℕ × String) × Queue
poll_from best [] = (best, [])
poll_from best (n ∷ q) =
    let (least, rest) = poll_from (if ltb n.0 best.0 then n else best) q in
    (least, (if ltb n.0 best.0 then best else n) ∷ rest)

abbrev pub put {ℓ} : {A : Type ℓ} → (ℕ → A) → ℕ → A → ℕ → A
put f i a j = if j == i then a else f j

abbrev pub put_value : (String → Option Bool) → String → Bool → String → Option Bool
put_value f k v j = if str_eq k j then some v else f j

-- `s.holdCount = count`, and where `toggled` the new value and the new node of the queue.
unfoldable pub set_hold : Engine → Queue → ℕ → ℕ → Bool → Bool → Engine × Queue
set_hold e q id count toggled v =
    let s = e.symbols_by_id id in
    let e' = record e {
      symbols_by_id = put e.symbols_by_id id (record s { hold_count = count });
    } in
    if toggled
    then (record e' { values = put_value e.values s.name v }, (suc id, s.name) ∷ q)
    else (e', q)

-- What happens to the symbol of a clause that held (`before`) or not, and now holds or not.
unfoldable pub settle_owner : Bool → Bool → Engine → Queue → ℕ → Engine × Queue
unfolding set_hold
settle_owner false true e q id =
    let count = (e.symbols_by_id id).hold_count + 1 in set_hold e q id count (count == 1) true
settle_owner true false e q id =
    let count = (e.symbols_by_id id).hold_count - 1 in set_hold e q id count (count == 0) false
settle_owner _ _ e q id = (e, q)

-- The body of the loop over the clauses that a symbol affects.
unfoldable pub update_clause : String → Bool → Engine → Queue → ℕ → Engine × Queue
unfolding notify_symbol holds settle_owner
update_clause name v e q i =
    let c = e.clause i in
    let c' = notify_symbol c name v in
    settle_owner (holds c) (holds c') (record e { clause = put e.clause i c' }) q c.owner

unfoldable pub update_clauses : String → Bool → List ℕ → Engine → Queue → Engine × Queue
unfolding update_clause
update_clauses name v [] e q = (e, q)
update_clauses name v (i ∷ is) e q =
    let (e', q') = update_clause name v e q i in update_clauses name v is e' q'

unfoldable pub value_of : Engine → String → Bool
value_of e n = elim (e.values n) [ none ↦ false | some v ↦ v ]

-- `node.name.equals(last)`
unfoldable pub is_last : Option String → String → Bool
is_last none n = false
is_last (some l) n = str_eq n l

-- The loop over the queue, on fuel: `none` where the fuel ran out. The names added to `modifySet`
-- are in `modified`, the latest first.
unfoldable pub update_loop :
    ℕ → Option String → Queue → Engine → List String → Option (Engine × List String)
unfolding poll_from update_clauses value_of is_last
update_loop zero last q e modified = none
update_loop (suc fuel) last [] e modified = some (e, modified)
update_loop (suc fuel) last (n ∷ q) e modified =
    let (node, rest) = poll_from n q in
    let skipped = update_loop fuel last rest e modified in
    let (e', q') = update_clauses node.1 (value_of e node.1) (e.clauses_of node.1) e rest in
    let done = update_loop fuel (some node.1) q' e' (node.1 ∷ modified) in
    if is_last last node.1 then skipped else done

-- updateSystemSymbol. `system` says whether a name contains "@".
unfoldable pub update_system_symbol :
    (String → Bool) → ℕ → Engine → String → Bool → Option (Engine × List String)
unfolding update_loop value_of bool_eq
update_system_symbol system fuel e name value =
    if not (system name)
    then some (e, [])
    else (if bool_eq (value_of e name) value
        then some (e, [])
        else update_loop fuel none ((0, name) ∷ [])
            (record e { values = put_value e.values name value }) [])
