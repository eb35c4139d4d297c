-- ===== src/Context/Smart/Notices.antt =====
-- What SmartContext tells the UI and the Lua runtime of the symbols that changed.
use Prim.Native.String
use mathlib.Core.List.{◌++◌ as ◌+++◌}
use sctx.Context.Engine.Names.{has_name}
use sctx.Context.Engine.{Engine, value_of}
use sctx.Context.Smart.{SmartContext, lua_code, notify_context, notify_contexts, in_order}
use sctx.Context.Text.{has_char, has_at, has_dollar, qualify, split_first}
use sctx.Context.Text.Laws.{has_at-qualify, split_first-qualify}
use sctx.Prelude.{
  ℕ, String, ◌≡◌, refl, Bool, true, false, ◌||◌, ◌&&◌, Option, none, some, List, [], ◌∷◌, str_eq,
  eq_iff, eq_refl, ◌∙◌, Bool-cases, Option-cases, inl, inr, arith, sym, subst,
}
use sctx.Context.Engine.{bool_eq}
use sctx.Prelude.Options.{◌>>=◌, is_some}

is_some-split_first : (k : ℕ) (s : String) → is_some (split_first k s) ≡ has_char k s
unfolding split_first has_char
is_some-split_first k Prim.Native.String.String.[] = refl
is_some-split_first k (Prim.Native.String.String.◌∷◌ c s) = ground (arith, is_some-split_first k s)

unfoldable pub has_notice : List (String × Bool) → String → Bool → Bool
unfolding bool_eq
has_notice [] n v = false
has_notice (x ∷ xs) n v = (str_eq x.0 n && bool_eq x.1 v) || has_notice xs n v

has_notice-append :
    (xs ys : List (String × Bool)) (n : String) (v : Bool)
    → has_notice (xs +++ ys) n v ≡ (has_notice xs n v || has_notice ys n v)
unfolding has_notice
has_notice-append [] ys n v = refl
has_notice-append (x ∷ xs) ys n v = ground (arith, has_notice-append xs ys n v)

pub has_name-append :
    (xs ys : List String) (n : String) → has_name (xs +++ ys) n ≡ (has_name xs n || has_name ys n)
unfolding has_name
has_name-append [] ys n = refl
has_name-append (x ∷ xs) ys n = ground (arith, has_name-append xs ys n)

pub has_name-in_order : (ns : List String) (n : String) → has_name (in_order ns) n ≡ has_name ns n
unfolding in_order has_name
has_name-in_order [] n = refl
has_name-in_order (m ∷ ns) n =
    ground (arith, has_name-in_order ns n, has_name-append (in_order ns) (m ∷ []) n)

-- notifyContext can be called for the name.
unfoldable pub notifiable : Engine → String → Bool
notifiable e n = is_some (e.values n) && (has_at n || has_dollar n)

-- The code for the name of a symbol and its new value.
unfoldable pub code_of : String → Bool → String
unfolding split_first lua_code
code_of n v = elim (split_first b'$' n) [ none ↦ "" | some p ↦ lua_code p.0 p.1 v ]

-- The UI was told the value of the name and, for a symbol, its code was queued.
unfoldable pub is_told : SmartContext → String → Bool → Bool
unfolding has_notice has_name code_of
is_told s n v = has_notice s.notices n v && (has_at n || has_name s.lua_codes (code_of n v))

-- The names were told, and nothing that was told before is lost.
pub record Notified (ns : List String) (s s' : SmartContext) : Type 0 where
  pub eng : s'.eng ≡ s.eng
  pub native_context_ref : s'.native_context_ref ≡ s.native_context_ref
  pub told : (n : String) → has_name ns n ≡ true → is_told s' n (value_of s.eng n) ≡ true
  pub kept : (n : String) (v : Bool) → is_told s n v ≡ true → is_told s' n v ≡ true

abbrev pub IsNotified : List String → SmartContext → Option SmartContext → Type 0
IsNotified ns s none = ⊥
IsNotified ns s (some s') = Notified ns s s'

module _ (n : String) (s : SmartContext) (v : Bool) (here : s.eng.values n ≡ some v) where
  abbrev posted : SmartContext
  posted = record s { notices = s.notices +++ ((n, v) ∷ []) }

  -- With any codes after the queued ones.
  module _ (codes : List String) (coded : (has_at n || has_name codes (code_of n v)) ≡ true) where
    Notified-posted : Notified (n ∷ []) s (record posted { lua_codes = s.lua_codes +++ codes })
    unfolding is_told has_notice has_name value_of bool_eq
    Notified-posted = record {
      eng = refl;
      native_context_ref = refl;
      told = λ m h. ground (
        arith,
        has_notice-append s.notices ((n, v) ∷ []) m v,
        has_name-append s.lua_codes codes (code_of m v),
        coded,
        here,
        h,
        eq_iff n m,
      );
      kept = λ m w h. ground (
        arith,
        h,
        has_notice-append s.notices ((n, v) ∷ []) m w,
        has_name-append s.lua_codes codes (code_of m w),
      );
    }

  notify_context-at : has_at n ≡ true → notify_context n s ≡ some posted
  unfolding notify_context
  notify_context-at h = rw (here, h) refl

  notify_context-code :
      (p : String × String)
      → has_at n ≡ false
      → split_first b'$' n ≡ some p
      → notify_context n s
        ≡ some (record posted { lua_codes = s.lua_codes +++ (lua_code p.0 p.1 v ∷ []) })
  unfolding notify_context
  notify_context-code p h found = rw (here, h, found) refl

append_nil : (xs : List String) → xs +++ [] ≡ xs
append_nil [] = refl
append_nil (x ∷ xs) = rw (append_nil xs) refl

notify_context-IsNotified :
    (n : String) (s : SmartContext)
    → notifiable s.eng n ≡ true
    → IsNotified (n ∷ []) s (notify_context n s)
unfolding notifiable code_of has_name
notify_context-IsNotified n s h = elim (Option-cases (s.eng.values n)) [
  | inl absent ↦ absurd (ground (arith, h, absent))
  | inr (v, here) ↦ elim (Bool-cases (has_at n)) [
    | inl at ↦ subst (IsNotified (n ∷ []) s) (sym (notify_context-at n s v here at)) (
        subst
          (λ l.
            Notified (n ∷ []) s (record s { notices = s.notices +++ ((n, v) ∷ []); lua_codes = l }))
          (append_nil s.lua_codes) (Notified-posted n s v here [] (ground (arith, at))))
    | inr plain ↦ elim (Option-cases (split_first b'$' n)) [
      | inl bad ↦ absurd (ground (arith, h, plain, bad, is_some-split_first b'$' n))
      | inr (p, found) ↦
          subst (IsNotified (n ∷ []) s) (sym (notify_context-code n s v here p plain found)) (
            Notified-posted n s v here (lua_code p.0 p.1 v ∷ [])
              (ground (arith, found, eq_refl (lua_code p.0 p.1 v))))
    ]
  ]
]

unfoldable pub all_notifiable : Engine → List String → Bool
unfolding notifiable
all_notifiable e [] = true
all_notifiable e (n ∷ ns) = notifiable e n && all_notifiable e ns

module _ (n : String) (ns : List String) (s : SmartContext) where
  Notified-cons :
      (s' t : SmartContext) → Notified (n ∷ []) s s' → Notified ns s' t → Notified (n ∷ ns) s t
  unfolding has_name
  Notified-cons s' t first rest = record {
    eng = rest.eng ∙ first.eng;
    native_context_ref = rest.native_context_ref ∙ first.native_context_ref;
    told = λ m h. elim (Bool-cases (str_eq n m)) [
      | inl same ↦ rest.kept m (value_of s.eng m) (first.told m (ground (arith, same)))
      | inr other ↦
          subst (λ e. is_told t m (value_of e m) ≡ true) first.eng
            (rest.told m (ground (arith, h, other)))
    ];
    kept = λ m v h. rest.kept m v (first.kept m v h);
  }

  IsNotified-cons :
      (s' : SmartContext) (o : Option SmartContext)
      → Notified (n ∷ []) s s'
      → IsNotified ns s' o
      → IsNotified (n ∷ ns) s o
  IsNotified-cons s' none first rest = rest
  IsNotified-cons s' (some t) first rest = Notified-cons s' t first rest

  IsNotified-chain :
      (o : Option SmartContext)
      → IsNotified (n ∷ []) s o
      → ((s' : SmartContext) → s'.eng ≡ s.eng → IsNotified ns s' (notify_contexts ns s'))
      → IsNotified (n ∷ ns) s (o >>= notify_contexts ns)
  IsNotified-chain none first rest = first
  IsNotified-chain (some s') first rest =
      IsNotified-cons s' (notify_contexts ns s') first (rest s' first.eng)

-- notifyContext for each of the names.
pub notify_contexts-IsNotified :
    (ns : List String) (s : SmartContext)
    → all_notifiable s.eng ns ≡ true
    → IsNotified ns s (notify_contexts ns s)
unfolding notify_contexts all_notifiable has_name
notify_contexts-IsNotified [] s h = record {
  eng = refl;
  native_context_ref = refl;
  told = λ m no. ground (arith, no);
  kept = λ m v told. told;
}
notify_contexts-IsNotified (n ∷ ns) s h =
    IsNotified-chain n ns s (notify_context n s) (notify_context-IsNotified n s (ground (arith, h)))
      (λ s' same.
        notify_contexts-IsNotified ns s'
          (subst (λ e. all_notifiable e ns ≡ true) (sym same) (ground (arith, h))))

-- notifyContext on the name that parse gives to the symbol `name` of the namespace `nspc`, where the
-- namespace has no "$" and neither has "@", and the symbol has a value: the name and its value are
-- posted to the UI, and the code `nspc`_enter("`name`"), or the one with leave, is queued for Lua.
pub notify_context-qualify :
    (nspc name : String) (v : Bool) (s : SmartContext)
    → has_dollar nspc ≡ false
    → has_at nspc ≡ false
    → has_at name ≡ false
    → s.eng.values (qualify nspc name) ≡ some v
    → notify_context (qualify nspc name) s
      ≡ some (record s {
        notices = s.notices +++ ((qualify nspc name, v) ∷ []);
        lua_codes = s.lua_codes +++ (lua_code nspc name v ∷ []);
      })
notify_context-qualify nspc name v s plain at at' here =
    notify_context-code (qualify nspc name) s v here (nspc, name) (has_at-qualify nspc name at at')
      (split_first-qualify nspc name plain)
