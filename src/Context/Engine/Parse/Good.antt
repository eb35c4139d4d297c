-- ===== src/Context/Engine/Parse/Good.antt =====
-- One literal that parseClause of ContextInferenceEngine adds to a clause.
use sctx.Context.Engine.{Mark, Clause, Engine, get_mark, value_of}
use sctx.Context.Engine.Marks.{unmet, weight, unique, IsExact}
use sctx.Context.Engine.Parse.{mark_of, waits, put_literal, resolve, add_literal}
use sctx.Context.Engine.Pending.{mark_ok}
use sctx.Context.Text.{has_dollar}
use sctx.Prelude.{
  ◌+◌, String, ◌≡◌, refl, Bool, true, false, not, ◌||◌, Option, none, some, List, [], ◌∷◌, str_eq,
  eq_iff, if◌then◌else◌, arith,
}
use sctx.Prelude.Options.{is_some}

get_mark-put_literal :
    (s : List (String × Mark)) (k n : String) (m : Mark)
    → get_mark (put_literal s k m) n ≡ (if str_eq k n then some m else get_mark s n)
unfolding get_mark put_literal
get_mark-put_literal [] k n m = refl
get_mark-put_literal ((j, l) ∷ s) k n m =
    ground (arith, get_mark-put_literal s k n m, eq_iff j k, eq_iff k n, eq_iff j n)

unmet-put_literal :
    (s : List (String × Mark)) (k : String) (m : Mark)
    → get_mark s k ≡ none
    → unmet (put_literal s k m) ≡ unmet s + weight m
unfolding get_mark put_literal unmet
unmet-put_literal [] k m h = ground arith
unmet-put_literal ((j, l) ∷ s) k m h = ground (arith, unmet-put_literal s k m)

unique-put_literal :
    (s : List (String × Mark)) (k : String) (m : Mark)
    → get_mark s k ≡ none
    → unique s ≡ true
    → unique (put_literal s k m) ≡ true
unfolding get_mark put_literal unique
unique-put_literal [] k m h u = refl
unique-put_literal ((j, l) ∷ s) k m h u =
    ground (arith, unique-put_literal s k m, get_mark-put_literal s k j m, eq_iff j k, eq_iff k j)

-- A literal of a qualified name has a known symbol.
unfoldable pub known : Engine → String → Option Mark → Bool
known e n none = true
known e n (some m) = not (has_dollar n) || is_some (e.values n)

-- A clause of the symbol that is being parsed, whose name will be `own`.
pub record Good (e : Engine) (own : String) (c : Clause) : Type 0 where
  pub exact : IsExact c
  pub owner : c.owner ≡ e.size
  pub agree : (n : String) → mark_ok (get_mark c.symbols n) (value_of e n) ≡ true
  pub own_free : get_mark c.symbols own ≡ none
  pub closed : (n : String) → known e n (get_mark c.symbols n) ≡ true

mark_ok-mark_of : (p v : Bool) → mark_ok (some (mark_of p v)) v ≡ true
unfolding mark_ok mark_of
mark_ok-mark_of p v = ground arith

pub add_literal-Good :
    (e : Engine) (own : String) (c : Clause) (name : String) (p : Bool)
    → Good e own c
    → get_mark c.symbols name ≡ none
    → str_eq name own ≡ false
    → (not (has_dollar name) || is_some (e.values name)) ≡ true
    → Good e own (add_literal e c name p)
unfolding add_literal waits weight known
add_literal-Good e own c name p good new other there =
    let m = mark_of p (value_of e name) in
    record {
      exact = (
        ground (arith, good.exact, unmet-put_literal c.symbols name m new),
        unique-put_literal c.symbols name m new good.exact.1,
      );
      owner = good.owner;
      agree = λ n. ground (
        arith,
        good.agree n,
        get_mark-put_literal c.symbols name n m,
        eq_iff name n,
        mark_ok-mark_of p (value_of e name),
      );
      own_free = ground (arith, good.own_free, get_mark-put_literal c.symbols name own m, other);
      closed = λ n.
          ground
            (arith, good.closed n, get_mark-put_literal c.symbols name n m, eq_iff name n, there);
    }

-- The name of an item is not the rule's own, and is known if it is qualified.
pub resolve-known :
    (e : Engine) (nspc own item name : String)
    → has_dollar own ≡ true
    → resolve e nspc own item ≡ some name
    → (str_eq name own ≡ false) × ((not (has_dollar name) || is_some (e.values name)) ≡ true)
unfolding resolve
resolve-known e nspc own item name h found = ground (arith, eq_iff name own, eq_iff item own)

pub data All (p : Clause → Type 0) : List Clause → Type 0 where
  nil : All p []
  cons : {c : Clause} {cs : List Clause} → p c → All p cs → All p (c ∷ cs)

pub All-map :
    {p q : Clause → Type 0} {cs : List Clause} → ((c : Clause) → p c → q c) → All p cs → All q cs
All-map f nil = nil
All-map f (cons h hs) = cons (f _ h) (All-map f hs)
