-- ===== src/Context/Smart/Counted.antt =====
-- The counts of native contexts in SmartContext, and the system names of its engine.
use sctx.Context.Engine.{bool_eq, value_of}
use sctx.Context.Engine.Parse.Valid.{Valid}
use sctx.Context.Smart.{
  SmartContext, int_add, minus_one, set_context, get_native_context, put_native_context,
}
use sctx.Context.Smart.Changed.{Changed, IsChanged, set_context-IsChanged}
use sctx.Context.Smart.Notices.{is_told}
use sctx.Context.Text.{has_at}
use sctx.Prelude.{
  ℕ, ◌+◌, ◌-◌, ◌<◌, String, ◌≡◌, refl, Bool, true, false, ◌||◌, ◌&&◌, Option, none, some, ◌==◌, ltb,
  str_eq, eq_iff, eq_refl, ap, Option-cases, Bool-cases, inl, inr, arith, sym, subst, if◌then◌else◌,
}
use sctx.Prelude.Options.{is_some}

-- A count is a positive int.
unfoldable pub is_count : Option ℕ → Bool
is_count none = true
is_count (some n) = ltb 0 n && ltb n 2147483648

pub record WellFormed (s : SmartContext) : Type 0 where
  pub valid : Valid s.eng
  pub counts : (n : String) → is_count (s.native_context_ref n) ≡ true
  pub entered : (n : String) → has_at n ≡ true → value_of s.eng n ≡ is_some (s.native_context_ref n)

-- What a client sees: how often a context was taken and not given back.
unfoldable pub count : SmartContext → String → ℕ
count s name = elim (s.native_context_ref name) [ none ↦ 0 | some n ↦ n ]

-- One context is taken or given back.
pub record Recounted (name : String) (n : ℕ) (s s' : SmartContext) : Type 0 where
  pub well_formed : WellFormed s'
  pub here : count s' name ≡ n
  pub others : (m : String) → str_eq name m ≡ false → count s' m ≡ count s m
  pub told :
      (m : String)
      → (bool_eq (value_of s'.eng m) (value_of s.eng m) || is_told s' m (value_of s'.eng m)) ≡ true

abbrev pub IsRecounted : String → ℕ → SmartContext → Option SmartContext → Type 0
IsRecounted name n s none = ⊥
IsRecounted name n s (some s') = Recounted name n s s'

module _ (s : SmartContext) (w : WellFormed s) (name : String) where
  abbrev with_ref : Option ℕ → SmartContext
  with_ref o = record s {
    native_context_ref = λ j. if str_eq name j then o else s.native_context_ref j;
  }

  -- The count changes and stays positive.
  Recounted-still :
      (n : ℕ)
      → is_some (s.native_context_ref name) ≡ true
      → is_count (some n) ≡ true
      → Recounted name n s (with_ref (some n))
  unfolding count bool_eq
  Recounted-still n was ok = record {
    well_formed = record {
      valid = w.valid;
      counts = λ m. ground (arith, w.counts m, ok);
      entered = λ m at. ground (arith, w.entered m at, was, eq_iff name m);
    };
    here = ground (arith, eq_refl name);
    others = λ m other. ground (arith, other);
    told = λ m. ground arith;
  }

  Recounted-same : Recounted name (count s name) s s
  unfolding bool_eq
  Recounted-same = record {
    well_formed = w;
    here = refl;
    others = λ m other. refl;
    told = λ m. ground arith;
  }

  -- The context is entered or left.
  Recounted-Changed :
      (o : Option ℕ) (s' : SmartContext)
      → is_count o ≡ true
      → Changed name (is_some o) (with_ref o) s'
      → Recounted name (elim o [ none ↦ 0 | some n ↦ n ]) s s'
  unfolding count
  Recounted-Changed o s' ok changed =
      let ref_at : (m : String) → s'.native_context_ref m ≡ (with_ref o).native_context_ref m =
        λ m. ap (λ f. f m) changed.native_context_ref in
      record {
        well_formed = record {
          valid = changed.valid;
          counts = λ m. ground (arith, w.counts m, ok, ref_at m);
          entered = λ m at.
              ground
                (arith, w.entered m at, ref_at m, changed.set, changed.others m at, eq_iff name m);
        };
        here = ground (arith, ref_at name, eq_refl name);
        others = λ m other. ground (arith, ref_at m, other);
        told = changed.told;
      }

  IsRecounted-Changed :
      (o : Option ℕ) (r : Option SmartContext)
      → is_count o ≡ true
      → IsChanged name (is_some o) (with_ref o) r
      → IsRecounted name (elim o [ none ↦ 0 | some n ↦ n ]) s r
  IsRecounted-Changed o none ok changed = changed
  IsRecounted-Changed o (some s') ok changed = Recounted-Changed o s' ok changed

  count_some : (n : ℕ) → s.native_context_ref name ≡ some n → count s name ≡ n
  unfolding count
  count_some n h = rw (count, h) refl

  count_none : s.native_context_ref name ≡ none → count s name ≡ 0
  unfolding count
  count_none h = rw (count, h) refl

  get_absent :
      s.native_context_ref name ≡ none
      → get_native_context name s ≡ set_context name true (with_ref (some 1))
  unfolding get_native_context set_context
  get_absent h = rw (get_native_context, h) refl

  get_present :
      (n : ℕ)
      → s.native_context_ref name ≡ some n
      → get_native_context name s ≡ some (with_ref (some (int_add n 1)))
  unfolding get_native_context int_add
  get_present n h = rw (get_native_context, h) refl

  put_absent : s.native_context_ref name ≡ none → put_native_context name s ≡ some s
  unfolding put_native_context
  put_absent h = rw (put_native_context, h) refl

  put_last :
      s.native_context_ref name ≡ some 1
      → put_native_context name s ≡ set_context name false (with_ref none)
  unfolding put_native_context set_context
  put_last h = rw (put_native_context, h) refl

  put_present :
      (n : ℕ)
      → s.native_context_ref name ≡ some n
      → (n == 1) ≡ false
      → put_native_context name s ≡ some (with_ref (some (int_add n minus_one)))
  unfolding put_native_context int_add
  put_present n h more = rw (put_native_context, h, more) refl

  get_more :
      (n : ℕ)
      → s.native_context_ref name ≡ some n
      → n < 2147483647
      → (int_add n 1 ≡ n + 1) × (is_count (some (int_add n 1)) ≡ true)
  unfolding int_add is_count
  get_more n present bound = ground arith

  put_more :
      (n : ℕ)
      → s.native_context_ref name ≡ some n
      → (n == 1) ≡ false
      → (int_add n minus_one ≡ count s name - 1) × (is_count (some (int_add n minus_one)) ≡ true)
  unfolding int_add is_count
  put_more n present more = ground (arith, count_some n present, w.counts name, present, more)

  -- getNativeContext on a well-formed state in which the context's count is below the greatest int:
  -- it ends without an exception, adds 1 to that count and leaves the others, every system name is
  -- true exactly when it has a count, every name whose value changed is told to the UI and, if it
  -- is a symbol, to the Lua runtime, and the state is well-formed again.
  pub get_native_context-IsRecounted :
      count s name < 2147483647 → IsRecounted name (count s name + 1) s (get_native_context name s)
  unfolding is_count
  get_native_context-IsRecounted bound = elim (Option-cases (s.native_context_ref name)) [
    | inl absent ↦ subst (IsRecounted name (count s name + 1) s) (sym (get_absent absent)) (
        subst (λ n. IsRecounted name (n + 1) s (set_context name true (with_ref (some 1))))
          (sym (count_none absent))
          (IsRecounted-Changed (some 1) (set_context name true (with_ref (some 1))) refl
            (set_context-IsChanged (with_ref (some 1)) w.valid name true)))
    | inr (n, present) ↦
        subst (IsRecounted name (count s name + 1) s) (sym (get_present n present)) (
          subst (λ k. Recounted name k s (with_ref (some (int_add n 1))))
            (ground (arith, count_some n present, get_more n present))
            (Recounted-still (int_add n 1) (ground (arith, present))
              (ground (arith, count_some n present, bound, get_more n present))))
  ]

  -- putNativeContext on a well-formed state: it ends without an exception and takes 1 from the
  -- context's count where it is above 0 and leaves the others, every system name is true exactly
  -- when it has a count, every name whose value changed is told to the UI and, if it is a symbol, to
  -- the Lua runtime, and the state is well-formed again.
  pub put_native_context-IsRecounted :
      IsRecounted name (count s name - 1) s (put_native_context name s)
  unfolding is_count
  put_native_context-IsRecounted = elim (Option-cases (s.native_context_ref name)) [
    | inl absent ↦
        subst (IsRecounted name (count s name - 1) s) (sym (put_absent absent))
          (subst (λ n. Recounted name n s s) (ground (arith, count_none absent)) Recounted-same)
    | inr (n, present) ↦ elim (Bool-cases (n == 1)) [
      | inl last ↦
          let present_one : s.native_context_ref name ≡ some 1 = ground (arith, present, last) in
          subst (IsRecounted name (count s name - 1) s) (sym (put_last present_one)) (
            subst (λ k. IsRecounted name k s (set_context name false (with_ref none)))
              (ground (arith, count_some 1 present_one))
              (IsRecounted-Changed none (set_context name false (with_ref none)) refl
                (set_context-IsChanged (with_ref none) w.valid name false)))
      | inr more ↦
          subst (IsRecounted name (count s name - 1) s) (sym (put_present n present more)) (
            subst (λ k. Recounted name k s (with_ref (some (int_add n minus_one))))
              (put_more n present more).0
              (Recounted-still (int_add n minus_one) (ground (arith, present))
                (put_more n present more).1))
    ]
  ]

-- A system name is true exactly when its count is above 0.
pub value_of-count :
    (s : SmartContext) (n : String)
    → WellFormed s
    → has_at n ≡ true
    → value_of s.eng n ≡ ltb 0 (count s n)
unfolding count is_count
value_of-count s n w at = ground (arith, w.entered n at, w.counts n)
