-- ===== src/Context/Engine/Loop.antt =====
-- The loop of updateSystemSymbol over its queue, from one node to the next.
pub mod End
use sctx.Context.Engine.{Engine, Queue, poll_from, update_clauses, update_loop, value_of, is_last}
use sctx.Context.Engine.Invariant.{Inv}
use sctx.Context.Engine.Pending.{mark_ok, queued, agrees, Shape}
use sctx.Context.Engine.{includes}
use sctx.Context.Engine.Names.{is_named, all_named, distinct_names, all_named_mono, has_name-later}
use sctx.Context.Engine.Order.{
  queued-poll_from, length-poll_from, fits, all_fit, Names, poll_from-least, all_fit-poll_from,
  all_fit-raised,
}
use sctx.Prelude.{
  ℕ, zero, suc, ◌+◌, ◌<◌, ◌≤◌, String, ◌≡◌, refl, sym, subst, Bool, true, false, ◌||◌, Option, some,
  List, [], ◌∷◌, str_eq, eq_iff, eq_refl, if◌then◌else◌, ◌⊎◌, inl, inr, arith, length, Bool-cases,
}
use sctx.Context.Engine.Round.{load, load_mono, Fixed, Round, Round-steps}

-- Every literal agrees with its symbol.
pub record Consistent (e : Engine) : Type 0 where
  pub inv : Inv e
  pub shape : Shape e
  pub agree : (n : String) (i : ℕ) → i < e.clause_count → agrees e n i ≡ true

module _ (names : ℕ → String) (size : ℕ) (of : ℕ → List ℕ) (value : Option Bool) (start : Engine)
    (apart : (j : ℕ) → j < size → str_eq (names zero) (names (suc j)) ≡ false) where
  -- The state at the head of the loop over the queue.
  pub record Ready (floor : ℕ) (last : Option String) (q : Queue) (e : Engine) : Type 0 where
    pub inv : Inv e
    pub shape : Shape e
    pub fixed : Fixed names size of value start e
    pub pending : (n : String) (i : ℕ) → i < e.clause_count → (queued q n || agrees e n i) ≡ true
    pub settled :
        (n : String) (i : ℕ) → is_last last n ≡ true → i < e.clause_count → agrees e n i ≡ true
    pub fit : all_fit names size floor last q ≡ true

  module _ (floor : ℕ) (last : Option String) (b : ℕ × String) (q : Queue) (e : Engine)
      (ready : Ready floor last (b ∷ q) e) where
    abbrev least : ℕ × String
    least = (poll_from b q).0

    abbrev rest : Queue
    rest = (poll_from b q).1

    pub least-key :
        (names least.0 ≡ least.1)
        × (least.0 ≤ size)
        × ((floor ≤ least.0) ⊎ (is_last last least.1 ≡ true))
    unfolding fits
    least-key = ground (
      arith,
      all_fit-poll_from names size floor last b q ready.fit,
      eq_iff (names least.0) least.1,
    )

    pub Ready-skipped : is_last last least.1 ≡ true → Ready floor last rest e
    Ready-skipped again = record {
      inv = ready.inv;
      shape = ready.shape;
      fixed = ready.fixed;
      pending = λ n i h.
          ground (
            arith,
            ready.pending n i h,
            queued-poll_from b q n,
            eq_iff least.1 n,
            ready.settled n i,
          );
      settled = ready.settled;
      fit = ground (arith, all_fit-poll_from names size floor last b q ready.fit);
    }

    Round-start : Round names size of value start apart least.0 (of least.0) (e, rest)
    unfolding agrees mark_ok
    Round-start = record {
      told = record {
        inv = ready.inv;
        shape = ready.shape;
        telling = λ n i h. ground (
          arith,
          ready.pending n i h,
          queued-poll_from b q n,
          eq_iff (names least.0) n,
          least-key,
          ready.shape.indexed n i h,
          ready.fixed.lists least.0,
        );
      };
      fixed = ready.fixed;
      within = λ i m.
          ready.shape.listed (names least.0) i
            (subst (λ is. includes is i ≡ true) (sym (ready.fixed.lists least.0)) m);
      fit =
          all_fit-raised names size floor last least.0 rest
            (ground (arith, all_fit-poll_from names size floor last b q ready.fit))
            (poll_from-least b q).0;
    }

  pub Round-told :
      (floor : ℕ) (last : Option String) (b : ℕ × String) (q : Queue) (e : Engine)
      → Ready floor last (b ∷ q) e
      → let n = (poll_from b q).0.1 in
        let told = update_clauses n (value_of e n) (e.clauses_of n) e (poll_from b q).1 in
        Round names size of value start apart (poll_from b q).0.0 [] told
        × (length told.1 ≤ length (of (poll_from b q).0.0) + length q)
  Round-told floor last b q e ready =
      let k = (poll_from b q).0.0 in
      let rest = (poll_from b q).1 in
      let key = least-key floor last b q e ready in
      let steps =
        Round-steps names size of value start apart k (of k) e rest (value_of e (names k)) refl
          key.1 (Round-start floor last b q e ready) in
      subst
        (λ n.
          let told = update_clauses n (value_of e n) (e.clauses_of n) e rest in
          Round names size of value start apart k [] told
          × (length told.1 ≤ length (of k) + length q))
        key.0
        (subst
          (λ is.
            let told = update_clauses (names k) (value_of e (names k)) is e rest in
            Round names size of value start apart k [] told
            × (length told.1 ≤ length (of k) + length q))
          (sym (ready.fixed.lists k)) (steps.0, omega (arith, steps.1, length-poll_from b q)))

  pub Ready-Round :
      (k : ℕ) (r : Engine × Queue)
      → Round names size of value start apart k [] r
      → Ready (suc k) (some (names k)) r.1 r.0
  unfolding is_last includes
  Ready-Round k r round = record {
    inv = round.told.inv;
    shape = round.told.shape;
    fixed = round.fixed;
    pending = λ n i h. ground (arith, round.told.telling n i h);
    settled = λ n i same h.
        ground (arith, round.told.telling n i h, eq_iff (names k) n, eq_iff n (names k));
    fit = round.fit;
  }
