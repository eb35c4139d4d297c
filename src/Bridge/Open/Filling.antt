-- ===== src/Bridge/Open/Filling.antt =====
-- The loops of luajava_open that fill a Lua table with texts and with C functions.
use sctx.Bridge.Open.{set_text, set_function, set_texts, set_functions}
use sctx.Lua.Fields.{Calls}
use sctx.Lua.Fields.Plain.{set_table-plain}
use sctx.Lua.Index.{index2adr, value_at}
use sctx.Lua.State.{CFunction, Value, string, table, function, Table, State, ok, table_set, update}
use sctx.Prelude.{
  ℕ, suc, negsuc, String, ◌≡◌, refl, false, none, some, List, [], ◌∷◌, ◌==◌, ==_refl, arith,
  get_elem?,
}

abbrev pub Entries : Type 0
Entries = List (Value × Value)

abbrev pub plain : Entries → Table
plain es = record { entries = es; metatable = none }

unfoldable pub with_texts : List (String × String) → Entries → Entries
unfolding table_set
with_texts [] es = es
with_texts ((k, v) ∷ kvs) es = with_texts kvs (table_set es (string k) (string v))

-- The functions get the identities from `n` on.
unfoldable pub with_functions : ℕ → List (String × CFunction) → Entries → Entries
unfolding table_set
with_functions n [] es = es
with_functions n ((k, f) ∷ kfs) es =
    with_functions (suc n) kfs (table_set es (string k) (function n f))

-- From `s` to `s'` only table `a` changed, and identities were given out.
pub record Filled (a : ℕ) (es : Entries) (s s' : State) : Type 0 where
  pub stack : s'.stack ≡ s.stack
  pub globals : s'.globals ≡ s.globals
  pub other : (b : ℕ) → (b == a) ≡ false → s'.tables b ≡ s.tables b
  pub held : s'.tables a ≡ some (plain es)

module _ (calls : Calls) (a : ℕ) (xs : List Value) where
  -- One entry more, and the next identity `n`.
  abbrev stored : String → Value → ℕ → Entries → State → State
  stored k v n es s = record s {
    tables = update s.tables a (plain (table_set es (string k) v));
    fresh = n;
  }

  module _ (es : Entries) (s : State) (top : s.stack ≡ table a ∷ xs)
      (held : s.tables a ≡ some (plain es)) where
    first : get_elem? s.stack 0 ≡ some (table a)
    first = ground arith

    set_text-stored :
        (k v : String) → set_text calls (k, v) s ≡ ok tt (stored k (string v) s.fresh es s)
    unfolding set_text index2adr value_at
    set_text-stored k v = ground (
      arith,
      set_table-plain calls (record s { stack = string v ∷ string k ∷ s.stack }) (negsuc 2) a
          (plain es) first held refl k (string v) s.stack refl,
    )

    set_function-stored :
        (k : String) (f : CFunction)
        → set_function calls (k, f) s ≡ ok tt (stored k (function s.fresh f) (suc s.fresh) es s)
    unfolding set_function index2adr value_at
    set_function-stored k f = ground (
      arith,
      set_table-plain calls
          (record s { stack = function s.fresh f ∷ string k ∷ s.stack; fresh = suc s.fresh })
          (negsuc 2) a (plain es) first held refl k (function s.fresh f) s.stack refl,
    )

    Filled-stored :
        (k : String) (v : Value) (n : ℕ) (es' : Entries) (s' : State)
        → Filled a es' (stored k v n es s) s'
        → Filled a es' s s'
    Filled-stored k v n es' s' f = record {
      stack = f.stack;
      globals = f.globals;
      other = λ b h. ground (arith, f.other b h, h);
      held = f.held;
    }

  pub set_texts-Filled :
      (kvs : List (String × String)) (es : Entries) (s : State)
      → s.stack ≡ table a ∷ xs
      → s.tables a ≡ some (plain es)
      → (s' : State) × (set_texts calls kvs s ≡ ok tt s')
        × Filled a (with_texts kvs es) s s'
        × (s'.fresh ≡ s.fresh)
  unfolding set_texts with_texts
  set_texts-Filled [] es s top held =
      (s, refl, record { stack = refl; globals = refl; other = λ b h. refl; held = held }, refl)
  set_texts-Filled ((k, v) ∷ kvs) es s top held =
      let (s', e, f, n) =
        set_texts-Filled kvs (table_set es (string k) (string v)) (stored k (string v) s.fresh es s)
          top (rw ==_refl refl) in
      (
        s',
        ground (arith, set_text-stored es s top held k v, e),
        Filled-stored es s top held k (string v) s.fresh _ s' f,
        n,
      )

  pub set_functions-Filled :
      (kfs : List (String × CFunction)) (es : Entries) (s : State)
      → s.stack ≡ table a ∷ xs
      → s.tables a ≡ some (plain es)
      → (s' : State) × (set_functions calls kfs s ≡ ok tt s')
        × Filled a (with_functions s.fresh kfs es) s s'
  unfolding set_functions with_functions
  set_functions-Filled [] es s top held =
      (s, refl, record { stack = refl; globals = refl; other = λ b h. refl; held = held })
  set_functions-Filled ((k, g) ∷ kfs) es s top held =
      let v = function s.fresh g in
      let (s', e, f) =
        set_functions-Filled kfs (table_set es (string k) v) (stored k v (suc s.fresh) es s) top
          (rw ==_refl refl) in
      (
        s',
        ground (arith, set_function-stored es s top held k g, e),
        Filled-stored es s top held k v (suc s.fresh) _ s' f,
      )
