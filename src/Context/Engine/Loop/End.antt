-- ===== src/Context/Engine/Loop/End.antt =====
-- The end of the loop of updateSystemSymbol, with the names that it has handled.
use sctx.Context.Engine.Loop.{Consistent, Ready, Ready-skipped, Ready-Round, Round-told, least-key}
use sctx.Context.Engine.{Engine, Queue, poll_from, update_clauses, update_loop, value_of, is_last}
use sctx.Context.Engine.Pending.{queued, Shape}
use sctx.Context.Engine.Names.{is_named, all_named, distinct_names, all_named_mono, has_name-later}
use sctx.Context.Engine.Order.{length-poll_from, Names}
use sctx.Prelude.{
  ℕ, zero, suc, ◌+◌, ◌<◌, ◌≤◌, String, ◌≡◌, refl, sym, subst, Bool, true, false, Option, some, List,
  [], ◌∷◌, str_eq, eq_iff, eq_refl, if◌then◌else◌, inl, inr, arith, length, Bool-cases,
}
use sctx.Context.Engine.Round.{load, load_mono, Fixed}

module _ (names : ℕ → String) (size : ℕ) (of : ℕ → List ℕ) (value : Option Bool) (start : Engine)
    (apart : (j : ℕ) → j < size → str_eq (names zero) (names (suc j)) ≡ false) where
  -- The loop ended with the queue empty.
  pub record Ended (o : Option (Engine × List String)) : Type 0 where
    pub engine : Engine
    pub modified : List String
    pub returned : o ≡ some (engine, modified)
    pub consistent : Consistent engine
    pub fixed : Fixed names size of value start engine
    pub listed : all_named names (suc size) modified ≡ true
    pub once : distinct_names modified ≡ true

  spent :
      (fuel floor k used left : ℕ)
      → suc used + load of (suc size) < suc fuel + load of floor
      → floor ≤ k
      → left ≤ length (of k) + used
      → left + load of (suc size) < fuel + load of (suc k)
  unfolding load
  spent fuel floor k used left h le shorter = omega (arith, h, shorter, load_mono of floor k le)

  Ready-empty :
      (floor : ℕ) (last : Option String) (e : Engine)
      → Ready names size of value start apart floor last [] e
      → Consistent e
  unfolding queued
  Ready-empty floor last e ready = record {
    inv = ready.inv;
    shape = ready.shape;
    agree = ready.pending;
  }

  keys_apart :
      (e : Engine)
      → Shape e
      → Names names size e
      → (j k : ℕ) → j < k
      → k ≤ size
      → str_eq (names j) (names k) ≡ false
  keys_apart e shape known j zero h l = absurd (omega (arith, h))
  keys_apart e shape known zero (suc k) h l = apart k l
  keys_apart e shape known (suc j) (suc k) h l =
      ground (arith, known.0, known.1 j, known.1 k, shape.named j k, h, l)

  -- The name that is handled is put before the names of earlier keys.
  module _ (floor : ℕ) (last : Option String) (b : ℕ × String) (q : Queue) (e : Engine)
      (modified : List String) (ready : Ready names size of value start apart floor last (b ∷ q) e)
      (named : all_named names floor modified ≡ true) where
    abbrev head : ℕ × String
    head = (poll_from b q).0

    told_named : floor ≤ head.0 → all_named names (suc head.0) (head.1 ∷ modified) ≡ true
    unfolding all_named is_named
    told_named le = ground (
      arith,
      all_named_mono names floor (suc head.0) modified (omega (arith, le)) named,
      least-key names size of value start apart floor last b q e ready,
      eq_iff (names head.0) head.1,
      eq_refl head.1,
    )

    told_once :
        distinct_names modified ≡ true → floor ≤ head.0 → distinct_names (head.1 ∷ modified) ≡ true
    unfolding distinct_names
    told_once once le = ground (
      arith,
      once,
      has_name-later names floor modified head.1
          (λ j l.
            subst (λ n. str_eq (names j) n ≡ false)
              (least-key names size of value start apart floor last b q e ready).0
              (keys_apart e ready.shape ready.fixed.known j head.0 (omega (arith, l, le))
                (least-key names size of value start apart floor last b q e ready).1))
          named,
    )

  pub update_loop-Ended :
      (fuel floor : ℕ) (last : Option String) (q : Queue) (e : Engine) (modified : List String)
      → length q + load of (suc size) < fuel + load of floor
      → floor ≤ suc size
      → Ready names size of value start apart floor last q e
      → all_named names floor modified ≡ true
      → distinct_names modified ≡ true
      → Ended (update_loop fuel last q e modified)
  unfolding update_loop all_named distinct_names
  update_loop-Ended zero floor last q e modified h f ready ks once =
      absurd (omega (arith, h, load_mono of floor (suc size) f))
  update_loop-Ended (suc fuel) floor last [] e modified h f ready ks once = record {
    engine = e;
    modified = modified;
    returned = refl;
    consistent = Ready-empty floor last e ready;
    fixed = ready.fixed;
    listed = all_named_mono names floor (suc size) modified f ks;
    once = once;
  }
  update_loop-Ended (suc fuel) floor last (b ∷ q) e modified h f ready ks once =
      let k = (poll_from b q).0.0 in
      let n = (poll_from b q).0.1 in
      let rest = (poll_from b q).1 in
      let key = least-key names size of value start apart floor last b q e ready in
      let told = update_clauses n (value_of e n) (e.clauses_of n) e rest in
      let skipped = update_loop fuel last rest e modified in
      let done = update_loop fuel (some n) told.1 told.0 (n ∷ modified) in
      elim (Bool-cases (is_last last n)) [
        | inl again ↦
            subst (λ t. Ended (if t then skipped else done)) (sym again)
              (update_loop-Ended fuel floor last rest e modified
                (omega (arith, h, length-poll_from b q)) f
                (Ready-skipped names size of value start apart floor last b q e ready again) ks
                once)
        | inr fresh ↦
            subst (λ t. Ended (if t then skipped else done)) (sym fresh)
              (let round = Round-told names size of value start apart floor last b q e ready in
                update_loop-Ended fuel (suc k) (some n) told.1 told.0 (n ∷ modified)
                  (spent fuel floor k (length q) (length told.1) h (ground (arith, key, fresh))
                    round.1)
                  (omega (arith, key.1))
                  (subst (λ m. Ready names size of value start apart (suc k) (some m) told.1 told.0)
                    key.0 (Ready-Round names size of value start apart k told round.0))
                  (told_named floor last b q e modified ready ks (ground (arith, key, fresh)))
                  (told_once floor last b q e modified ready ks once (ground (arith, key, fresh))))
      ]
