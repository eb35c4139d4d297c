-- ===== src/Context/Smart/Changed.antt =====
-- What enterContext and leaveContext of SmartContext do.
use sctx.Context.Engine.Names.{has_name, is_named, is_named-all, all_named-has_name}
use sctx.Context.Engine.{Engine, bool_eq, value_of, update_system_symbol}
use sctx.Context.Engine.Parse.Valid.{Valid}
use sctx.Context.Engine.Reach.{updated-Valid, plain_update}
use sctx.Context.Engine.Reset.Determined.{names_of}
use sctx.Context.Engine.Reset.Equivalence.{is_named-key_name}
use sctx.Context.Engine.Tracking.{IsComplete, update_system_symbol-IsComplete}
use sctx.Context.Engine.Update.{enough_fuel, key_name, Updated, update_system_symbol-Updated}
use sctx.Context.Smart.{SmartContext, notify_contexts, in_order, set_context}
use sctx.Context.Smart.Notices.{
  notifiable, all_notifiable, is_told, Notified, IsNotified, notify_contexts-IsNotified,
  has_name-in_order,
}
use sctx.Context.Text.{has_at}
use sctx.Prelude.{
  ℕ, suc, ◌<◌, String, ◌≡◌, refl, Bool, true, false, not, ◌||◌, Option, none, some, List, [], ◌∷◌,
  str_eq, eq_iff, eq_refl, Bool-cases, inl, inr, arith, sym, subst,
}
use sctx.Prelude.Options.{◌>>=◌}

all_notifiable-all :
    (e : Engine) (ns : List String)
    → ((n : String) → has_name ns n ≡ true → notifiable e n ≡ true)
    → all_notifiable e ns ≡ true
unfolding all_notifiable has_name
all_notifiable-all e [] h = refl
all_notifiable-all e (n ∷ ns) h =
    ground (arith, h n, eq_refl n, all_notifiable-all e ns (λ m has. h m (ground (arith, has))))

-- The state after `name` was entered or left.
pub record Changed (name : String) (value : Bool) (s s' : SmartContext) : Type 0 where
  pub valid : Valid s'.eng
  pub native_context_ref : s'.native_context_ref ≡ s.native_context_ref
  pub set : has_at name ≡ true → value_of s'.eng name ≡ value
  pub others :
      (n : String) → has_at n ≡ true → str_eq name n ≡ false → value_of s'.eng n ≡ value_of s.eng n
  pub told :
      (n : String)
      → (bool_eq (value_of s'.eng n) (value_of s.eng n) || is_told s' n (value_of s'.eng n)) ≡ true
  pub kept : (n : String) (v : Bool) → is_told s n v ≡ true → is_told s' n v ≡ true

abbrev pub IsChanged : String → Bool → SmartContext → Option SmartContext → Type 0
IsChanged name value s none = ⊥
IsChanged name value s (some s') = Changed name value s s'

module _ (s : SmartContext) (valid : Valid s.eng) (name : String) (value : Bool) where
  plain-Changed : has_at name ≡ false → Changed name value s s
  unfolding bool_eq
  plain-Changed plain = record {
    valid = valid;
    native_context_ref = refl;
    set = λ at. absurd (ground (arith, at, plain));
    others = λ n at other. refl;
    told = λ n. ground arith;
    kept = λ n v told. told;
  }

  module _ (is_system : has_at name ≡ true) (o : Option (Engine × List String))
      (u : Updated s.eng name value o)
      (complete : IsComplete (value_of s.eng) (some (u.engine, u.modified))) where
    listed_key :
        (n : String)
        → has_name u.modified n ≡ true
        → (str_eq name n || is_named (names_of s.eng) s.eng.size n) ≡ true
    listed_key n has = ground (
      arith,
      all_named-has_name (key_name s.eng name) (suc s.eng.size) u.modified n u.listed has,
      is_named-key_name s.eng name s.eng.size n,
    )

    symbol_notifiable : (j : ℕ) → j < s.eng.size → notifiable u.engine (names_of s.eng j) ≡ true
    unfolding notifiable
    symbol_notifiable j h = ground (arith, u.truth j h, valid.spelled j h)

    listed_notifiable : (n : String) → has_name u.modified n ≡ true → notifiable u.engine n ≡ true
    unfolding notifiable has_name
    listed_notifiable n has = elim (Bool-cases (str_eq name n)) [
      | inl same ↦ ground (arith, same, eq_iff name n, is_system, u.root, has)
      | inr other ↦
          is_named-all (notifiable u.engine) (names_of s.eng) s.eng.size n symbol_notifiable
            (ground (arith, listed_key n has, other))
    ]

    -- A system name is no symbol.
    system_kept :
        (n : String)
        → has_at n ≡ true
        → str_eq name n ≡ false
        → value_of u.engine n ≡ value_of s.eng n
    unfolding bool_eq
    system_kept n at other = ground (
      arith,
      complete n,
      listed_key n,
      other,
      at,
      is_named-all (λ m. not (has_at m)) (names_of s.eng) s.eng.size n
          (λ j h. ground (arith, valid.spelled j h)),
    )

    Changed-Notified :
        (s' : SmartContext)
        → Notified (in_order u.modified) (record s { eng = u.engine }) s'
        → Changed name value s s'
    unfolding is_told
    Changed-Notified s' done = record {
      valid = subst Valid (sym done.eng) (updated-Valid s.eng valid name value o u);
      native_context_ref = done.native_context_ref;
      set = λ at. subst (λ e. value_of e name ≡ value) (sym done.eng) u.set;
      others = λ n at other.
          subst (λ e. value_of e n ≡ value_of s.eng n) (sym done.eng) (system_kept n at other);
      told = λ n.
          subst
            (λ e. (bool_eq (value_of e n) (value_of s.eng n) || is_told s' n (value_of e n)) ≡ true)
            (sym done.eng)
            (ground (arith, complete n, done.told n, has_name-in_order u.modified n));
      kept = done.kept;
    }

    IsChanged-notified :
        (r : Option SmartContext)
        → IsNotified (in_order u.modified) (record s { eng = u.engine }) r
        → IsChanged name value s r
    IsChanged-notified none done = done
    IsChanged-notified (some s') done = Changed-Notified s' done

    set_context-updated :
        IsChanged name value s (notify_contexts (in_order u.modified) (record s { eng = u.engine }))
    set_context-updated =
        IsChanged-notified (notify_contexts (in_order u.modified) (record s { eng = u.engine })) (
          notify_contexts-IsNotified (in_order u.modified) (record s { eng = u.engine })
            (all_notifiable-all u.engine (in_order u.modified)
              (λ n has. listed_notifiable n (ground (arith, has, has_name-in_order u.modified n)))))

  -- On a valid engine, enterContext and leaveContext end without an exception.
  pub set_context-IsChanged : IsChanged name value s (set_context name value s)
  unfolding set_context notify_contexts in_order
  set_context-IsChanged = elim (Bool-cases (has_at name)) [
    | inl at ↦
        let o = update_system_symbol has_at (enough_fuel s.eng name) s.eng name value in
        let u =
          update_system_symbol-Updated has_at s.eng name value valid.consistent
            (λ j l. (valid.spelled j l).1) at (enough_fuel s.eng name) (omega arith) in
        subst
          (λ x.
            IsChanged name value s (
              x >>= λ updated. notify_contexts (in_order updated.1) (record s { eng = updated.0 })))
          (sym u.returned)
          (set_context-updated at o u (
            subst (IsComplete (value_of s.eng)) u.returned
              (update_system_symbol-IsComplete has_at (enough_fuel s.eng name) s.eng name value)))
    | inr plain ↦
        subst
          (λ x.
            IsChanged name value s (
              x >>= λ updated. notify_contexts (in_order updated.1) (record s { eng = updated.0 })))
          (sym (plain_update s.eng name value plain)) (plain-Changed plain)
  ]
