-- ===== src/Context/Screen/Told.antt =====
-- What the notices of SmartContext come to: followed in order, they take the values that the engine
-- had to the values that it has.
use mathlib.Core.List.{◌++◌ as ◌+++◌, append_assoc, append-nil}
use sctx.Context.Engine.Names.{has_name}
use sctx.Context.Engine.{Engine, value_of}
use sctx.Context.Smart.{SmartContext, notify_context, notify_contexts}
use sctx.Context.Text.{has_at, split_first}
use sctx.Prelude.Options.{◌>>=◌}
use sctx.Prelude.{
  String, ◌≡◌, refl, Bool, Option, none, some, List, [], ◌∷◌, str_eq, eq_iff, ◌∙◌, ap, sym, subst,
  if◌then◌else◌, Bool-cases, Option-cases, inl, inr, arith,
}

-- The values after the notices, from those before.
unfoldable pub told_after : List (String × Bool) → (String → Bool) → String → Bool
told_after [] f = f
told_after ((m, v) ∷ ns) f = told_after ns (λ n. if str_eq m n then v else f n)

pub told_after-append :
    (xs ys : List (String × Bool)) (f : String → Bool)
    → told_after (xs +++ ys) f ≡ told_after ys (told_after xs f)
unfolding told_after
told_after-append [] ys f = refl
told_after-append ((m, v) ∷ xs) ys f = told_after-append xs ys (λ n. if str_eq m n then v else f n)

-- The notices that were added between two states take the values of the one to those of the other.
pub record Follows (s s' : SmartContext) : Type 0 where
  pub added : List (String × Bool)
  pub notices : s'.notices ≡ s.notices +++ added
  pub values : told_after added (value_of s.eng) ≡ value_of s'.eng

abbrev pub IsFollowed : SmartContext → Option SmartContext → Type 0
IsFollowed s none = Unit
IsFollowed s (some s') = Follows s s'

pub Follows-refl : (s : SmartContext) → Follows s s
unfolding told_after
Follows-refl s = record { added = []; notices = sym (append-nil s.notices); values = refl }

pub Follows-trans : (s t u : SmartContext) → Follows s t → Follows t u → Follows s u
Follows-trans s t u f g = record {
  added = f.added +++ g.added;
  notices =
      g.notices ∙ (ap (λ l. l +++ g.added) f.notices ∙ append_assoc s.notices f.added g.added);
  values =
      told_after-append f.added g.added (value_of s.eng)
      ∙ (ap (told_after g.added) f.values ∙ g.values);
}

pub IsFollowed->>= :
    (s : SmartContext) (o : Option SmartContext) (k : SmartContext → Option SmartContext)
    → IsFollowed s o
    → ((t : SmartContext) → IsFollowed t (k t))
    → IsFollowed s (o >>= k)
IsFollowed->>= s none k h all = tt
IsFollowed->>= s (some t) k h all = elim (Option-cases (k t)) [
  | inl e ↦ subst (IsFollowed s) (sym e) tt
  | inr (u, e) ↦
      subst (IsFollowed s) (sym e) (Follows-trans s t u h (subst (IsFollowed t) e (all t)))
]

-- The notices of the names with the engine's values.
unfoldable pub values_of : Engine → List String → List (String × Bool)
values_of e [] = []
values_of e (n ∷ ns) = (n, value_of e n) ∷ values_of e ns

pub told_after-values_of :
    (e : Engine) (ns : List String) (f : String → Bool) (n : String)
    → told_after (values_of e ns) f n ≡ (if has_name ns n then value_of e n else f n)
unfolding told_after values_of has_name
told_after-values_of e [] f n = refl
told_after-values_of e (m ∷ ns) f n =
    ground (
      arith,
      told_after-values_of e ns (λ k. if str_eq m k then value_of e m else f k) n,
      eq_iff m n,
    )

-- Only notices and codes are added.
pub record Posted (ns : List String) (s s' : SmartContext) : Type 0 where
  pub eng : s'.eng ≡ s.eng
  pub notices : s'.notices ≡ s.notices +++ values_of s.eng ns

abbrev pub IsPosted : List String → SmartContext → Option SmartContext → Type 0
IsPosted ns s none = Unit
IsPosted ns s (some s') = Posted ns s s'

notices_here :
    (n : String) (s : SmartContext) (v : Bool)
    → s.eng.values n ≡ some v
    → s.notices +++ ((n, v) ∷ []) ≡ s.notices +++ values_of s.eng (n ∷ [])
unfolding value_of values_of
notices_here n s v here =
    let same : v ≡ value_of s.eng n = ground (arith, here) in
    ap (λ w. s.notices +++ ((n, w) ∷ [])) same

notify_context-IsPosted : (n : String) (s : SmartContext) → IsPosted (n ∷ []) s (notify_context n s)
unfolding notify_context
notify_context-IsPosted n s = elim (Option-cases (s.eng.values n)) [
  | inl absent ↦ rw (absent) tt
  | inr (v, here) ↦ elim (Bool-cases (has_at n)) [
    | inl at ↦ rw (here, at) (record { eng = refl; notices = notices_here n s v here })
    | inr plain ↦ elim (Option-cases (split_first b'$' n)) [
      | inl bad ↦ rw (here, plain, bad) tt
      | inr (p, found) ↦
          rw (here, plain, found) (record { eng = refl; notices = notices_here n s v here })
    ]
  ]
]

Posted-cons :
    (n : String) (ns : List String) (s : SmartContext) (o : Option SmartContext)
    → IsPosted (n ∷ []) s o
    → ((t : SmartContext) → IsPosted ns t (notify_contexts ns t))
    → IsPosted (n ∷ ns) s (o >>= notify_contexts ns)
unfolding values_of
Posted-cons n ns s none h all = tt
Posted-cons n ns s (some t) h all = elim (Option-cases (notify_contexts ns t)) [
  | inl e ↦ rw (e) tt
  | inr (u, e) ↦
      let rest : Posted ns t u = subst (IsPosted ns t) e (all t) in
      subst (IsPosted (n ∷ ns) s) (sym e) (record {
        eng = rest.eng ∙ h.eng;
        notices =
            rest.notices
            ∙ (ap (λ l. l +++ values_of t.eng ns) h.notices
                ∙ (append_assoc s.notices ((n, value_of s.eng n) ∷ []) (values_of t.eng ns)
                    ∙ ap (λ g. s.notices +++ ((n, value_of s.eng n) ∷ values_of g ns)) h.eng));
      })
]

pub notify_contexts-IsPosted :
    (ns : List String) (s : SmartContext) → IsPosted ns s (notify_contexts ns s)
unfolding notify_contexts values_of
notify_contexts-IsPosted [] s = record { eng = refl; notices = sym (append-nil s.notices) }
notify_contexts-IsPosted (n ∷ ns) s =
    Posted-cons n ns s (notify_context n s) (notify_context-IsPosted n s)
      (notify_contexts-IsPosted ns)
