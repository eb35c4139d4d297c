-- ===== src/Context/Wifi/Contexts.antt =====
-- The counts of the rules of WifiContext and the counts of contexts in SmartContext.
pub mod Changing
pub mod Scanned
pub mod Steps
use sctx.Context.Engine.{includes}
use sctx.Context.Smart.{SmartContext, get_native_context, put_native_context}
use sctx.Context.Smart.Counted.{
  WellFormed, count, Recounted, IsRecounted, get_native_context-IsRecounted,
  put_native_context-IsRecounted,
}
use sctx.Context.Wifi.{WifiRule, is_positive, change_context}
use sctx.Prelude.{
  ℕ, ◌+◌, ◌-◌, ◌<◌, ◌≤◌, String, ◌≡◌, refl, Bool, true, false, not, ◌||◌, ◌&&◌, Option, none, some,
  List, [], ◌∷◌, ◌==◌, ltb, str_eq, eq_iff, eq_refl, if◌then◌else◌, Option-cases, Bool-cases, inl,
  inr, arith, sym, subst,
}

-- 1 for a rule of the context `n` that matches now, else 0.
unfoldable pub now : WifiRule → String → ℕ
unfolding is_positive
now r n = if str_eq r.result_context n && is_positive r.ref_count then 1 else 0

-- The same for the scan before.
unfoldable pub before : WifiRule → String → ℕ
unfolding is_positive
before r n = if str_eq r.result_context n && is_positive r.last_ref_count then 1 else 0

-- The counts of a rule are no negative ints.
unfoldable pub in_range : WifiRule → Bool
in_range r = ltb r.ref_count 2147483648 && ltb r.last_ref_count 2147483648

-- A rule's part of the counts is brought up to date.
pub record Moved (r : WifiRule) (s s' : SmartContext) : Type 0 where
  pub well_formed : WellFormed s'
  pub counts : (n : String) → count s' n + before r n ≡ count s n + now r n

abbrev pub IsMoved : WifiRule → SmartContext → Option SmartContext → Type 0
IsMoved r s none = ⊥
IsMoved r s (some s') = Moved r s s'

module _ (r : WifiRule) (s : SmartContext) (range : in_range r ≡ true) where
  IsMoved-got :
      (o : Option SmartContext)
      → (((r.last_ref_count == 0) && is_positive r.ref_count) ≡ true)
      → IsRecounted r.result_context (count s r.result_context + 1) s o
      → IsMoved r s o
  unfolding now before is_positive in_range
  IsMoved-got none h done = done
  IsMoved-got (some s') h done = record {
    well_formed = done.well_formed;
    counts = λ n. ground (arith, done.here, done.others n, h, range, eq_iff r.result_context n);
  }

  IsMoved-put :
      (o : Option SmartContext)
      → ((is_positive r.last_ref_count && (r.ref_count == 0)) ≡ true)
      → 0 < count s r.result_context
      → IsRecounted r.result_context (count s r.result_context - 1) s o
      → IsMoved r s o
  unfolding now before is_positive in_range
  IsMoved-put none h there done = done
  IsMoved-put (some s') h there done = record {
    well_formed = done.well_formed;
    counts =
        λ n. ground (arith, done.here, done.others n, h, range, there, eq_iff r.result_context n);
  }

  module _ (w : WellFormed s) where
    Moved-same :
        ((r.last_ref_count == 0) && is_positive r.ref_count) ≡ false
        → (is_positive r.last_ref_count && (r.ref_count == 0)) ≡ false
        → Moved r s s
    unfolding now before is_positive in_range
    Moved-same g p = record { well_formed = w; counts = λ n. ground (arith, g, p, range) }

    abbrev gets : Bool
    gets = (r.last_ref_count == 0) && is_positive r.ref_count

    abbrev puts : Bool
    puts = is_positive r.last_ref_count && (r.ref_count == 0)

    room :
        gets ≡ true
        → count s r.result_context < 2147483647 + before r r.result_context
        → count s r.result_context < 2147483647
    unfolding before is_positive
    room g bound = ground (arith, g, bound)

    some_left :
        puts ≡ true
        → before r r.result_context ≤ count s r.result_context
        → 0 < count s r.result_context
    unfolding before is_positive
    some_left p part = ground (arith, p, part, eq_refl r.result_context)

    -- A rule that was counted before has a part in the count.
    pub change_context-IsMoved :
        count s r.result_context < 2147483647 + before r r.result_context
        → before r r.result_context ≤ count s r.result_context
        → IsMoved r s (change_context r s)
    unfolding change_context
    change_context-IsMoved bound part = elim (Bool-cases gets) [
      | inl g ↦ rw (g) (
          IsMoved-got (get_native_context r.result_context s) g
            (get_native_context-IsRecounted s w r.result_context (room g bound)))
      | inr not_got ↦ elim (Bool-cases puts) [
        | inl p ↦
            rw (not_got, p)
              (IsMoved-put (put_native_context r.result_context s) p (some_left p part)
                (put_native_context-IsRecounted s w r.result_context))
        | inr not_put ↦ rw (not_got, not_put) (Moved-same not_got not_put)
      ]
    ]
