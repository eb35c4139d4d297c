-- ===== src/Context/Engine/Order.antt =====
-- The queue of ContextInferenceEngine: what poll takes and leaves, and that a symbol that is told to
-- its clauses puts only later symbols in the queue, at most one for each clause.
use sctx.Context.Engine.{
  Engine, Queue, get_mark, notify_symbol, poll_from, settle_owner, update_clause, value_of, is_last,
}
use sctx.Context.Engine.Pending.{queued, Shape}
use sctx.Prelude.{
  ℕ, zero, suc, ◌<◌, ◌≤◌, String, ◌≡◌, refl, Bool, true, false, ◌||◌, ◌&&◌, Option, none, some, [],
  ◌∷◌, ◌==◌, ltb, leb, str_eq, eq_iff, if◌then◌else◌, ◌⊎◌, arith, length,
}

pub queued-poll_from :
    (b : ℕ × String) (q : Queue) (n : String)
    → queued (b ∷ q) n ≡ (str_eq (poll_from b q).0.1 n || queued (poll_from b q).1 n)
unfolding poll_from queued
queued-poll_from b [] n = ground arith
queued-poll_from b (x ∷ q) n = ground (arith, queued-poll_from (if ltb x.0 b.0 then x else b) q n)

pub length-poll_from : (b : ℕ × String) (q : Queue) → length (poll_from b q).1 ≡ length q
unfolding poll_from
length-poll_from b [] = refl
length-poll_from b (x ∷ q) = ground (arith, length-poll_from (if ltb x.0 b.0 then x else b) q)

-- The nodes have the names and keys of symbols, and a key from `floor` on, or the key before it and
-- the name that was handled last.
unfoldable pub fits : (ℕ → String) → ℕ → ℕ → Option String → ℕ × String → Bool
unfolding is_last
fits names size floor last x =
    str_eq (names x.0) x.1
    && leb x.0 size
    && (leb floor x.0 || (suc x.0 == floor && is_last last x.1))

unfoldable pub all_fit : (ℕ → String) → ℕ → ℕ → Option String → Queue → Bool
unfolding fits
all_fit names size floor last [] = true
all_fit names size floor last (x ∷ q) =
    fits names size floor last x && all_fit names size floor last q

unfoldable pub all_from : ℕ → Queue → Bool
all_from k [] = true
all_from k (x ∷ q) = leb k x.0 && all_from k q

all_from-le : (j k : ℕ) (q : Queue) → j ≤ k → all_from k q ≡ true → all_from j q ≡ true
unfolding all_from
all_from-le j k [] h a = refl
all_from-le j k (x ∷ q) h a = ground (arith, all_from-le j k q h)

pub poll_from-least :
    (b : ℕ × String) (q : Queue)
    → (all_from (poll_from b q).0.0 (poll_from b q).1 ≡ true) × ((poll_from b q).0.0 ≤ b.0)
unfolding poll_from all_from
poll_from-least b [] = ground arith
poll_from-least b (x ∷ q) = ground (arith, poll_from-least (if ltb x.0 b.0 then x else b) q)

module _ (names : ℕ → String) (size : ℕ) where
  pub all_fit-poll_from :
      (floor : ℕ) (last : Option String) (b : ℕ × String) (q : Queue)
      → all_fit names size floor last (b ∷ q) ≡ true
      → (fits names size floor last (poll_from b q).0
          && all_fit names size floor last (poll_from b q).1)
        ≡ true
  unfolding poll_from all_fit
  all_fit-poll_from floor last b [] h = ground arith
  all_fit-poll_from floor last b (x ∷ q) h =
      ground (arith, all_fit-poll_from floor last (if ltb x.0 b.0 then x else b) q)

  -- Once the node with key `k` and its name are handled.
  pub all_fit-raised :
      (floor : ℕ) (last : Option String) (k : ℕ) (q : Queue)
      → all_fit names size floor last q ≡ true
      → all_from k q ≡ true
      → all_fit names size (suc k) (some (names k)) q ≡ true
  unfolding all_fit all_from
  all_fit-raised floor last k [] a h = refl
  all_fit-raised floor last k (x ∷ q) a h =
      ground (arith, all_fit-raised floor last k q, eq_iff (names x.0) x.1, eq_iff x.1 (names k))

  -- The names and the number of the symbols of the engine.
  abbrev pub Names : Engine → Type 0
  Names e = (e.size ≡ size) × ((j : ℕ) → names (suc j) ≡ (e.symbols_by_id j).name)

  module _ (k i : ℕ) (e : Engine) (q : Queue) (shape : Shape e) (within : i < e.clause_count)
      (known : Names e) (k_within : k ≤ size) where
    abbrev next : Engine × Queue
    next = update_clause (names k) (value_of e (names k)) e q i

    -- A clause of an earlier symbol, or of `k` itself, does not change.
    later-clause : (get_mark (e.clause i).symbols (names k) ≡ none) ⊎ (k ≤ (e.clause i).owner)
    later-clause = later k known k_within
      where
        later :
            (k : ℕ)
            → Names e
            → k ≤ size
            → (get_mark (e.clause i).symbols (names k) ≡ none) ⊎ (k ≤ (e.clause i).owner)
        later zero known h = ground arith
        later (suc j) known h = ground (arith, shape.earlier i j within, known.0, known.1 j)

    pub all_fit-update_clause :
        all_fit names size (suc k) (some (names k)) q ≡ true
        → all_fit names size (suc k) (some (names k)) next.1 ≡ true
    unfolding update_clause settle_owner all_fit notify_symbol
    all_fit-update_clause h = ground (
      arith,
      later-clause,
      known.0,
      known.1 (e.clause i).owner,
      shape.owned i within,
      eq_iff (names (suc (e.clause i).owner)) (e.symbols_by_id (e.clause i).owner).name,
    )

    pub length-update_clause : length next.1 ≤ suc (length q)
    unfolding update_clause settle_owner
    length-update_clause = ground arith

    pub values-update_clause :
        ((j : ℕ) → j < size → str_eq (names zero) (names (suc j)) ≡ false)
        → next.0.values (names zero) ≡ e.values (names zero)
    unfolding update_clause settle_owner
    values-update_clause apart = ground (
      arith,
      apart (e.clause i).owner,
      known.0,
      known.1 (e.clause i).owner,
      shape.owned i within,
      eq_iff (e.symbols_by_id (e.clause i).owner).name (names zero),
      eq_iff (names zero) (e.symbols_by_id (e.clause i).owner).name,
    )
