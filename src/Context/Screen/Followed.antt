-- ===== src/Context/Screen/Followed.antt =====
-- The operations of SmartContext and WifiContext, each followed by its notices.
use mathlib.Core.Path.{fun_ext}
use sctx.Context.Engine.Tracking.{IsComplete, update_system_symbol-IsComplete}
use sctx.Context.Engine.Update.{enough_fuel}
use sctx.Context.Engine.{Engine, bool_eq, value_of, update_system_symbol}
use sctx.Context.Smart.Notices.{has_name-in_order}
use sctx.Context.Smart.{
  SmartContext, notify_contexts, in_order, set_context, get_native_context, put_native_context,
  int_add, minus_one,
}
use sctx.Context.Text.{has_at}
use sctx.Context.Wifi.{
  WifiRule, WifiContext, ScanResult, is_positive, change_context, change_contexts, counted_rules,
  set_wifi_scan_result,
}
use sctx.Prelude.Options.{◌>>=◌}
use sctx.Prelude.{
  ℕ, String, ◌≡◌, Bool, true, false, ◌&&◌, Option, none, some, List, [], ◌∷◌, ◌==◌, str_eq, ◌∙◌, ap,
  sym, if◌then◌else◌, Bool-cases, Option-cases, inl, inr, arith,
}
use sctx.Context.Screen.Told.{
  told_after, Follows, IsFollowed, Follows-refl, IsFollowed->>=, values_of, told_after-values_of,
  IsPosted, notify_contexts-IsPosted,
}

module _ (s : SmartContext) (e : Engine) (modified : List String)
    (complete : IsComplete (value_of s.eng) (some (e, modified))) where
  told_after-modified : told_after (values_of e (in_order modified)) (value_of s.eng) ≡ value_of e
  unfolding bool_eq
  told_after-modified = fun_ext (λ n. ground (
    arith,
    told_after-values_of e (in_order modified) (value_of s.eng) n,
    has_name-in_order modified n,
    complete n,
  ))

  IsFollowed-IsPosted :
      (o : Option SmartContext)
      → IsPosted (in_order modified) (record s { eng = e }) o
      → IsFollowed s o
  IsFollowed-IsPosted none h = tt
  IsFollowed-IsPosted (some s') h = record {
    added = values_of e (in_order modified);
    notices = h.notices;
    values = told_after-modified ∙ ap value_of (sym h.eng);
  }

IsFollowed-updated :
    (s : SmartContext) (o : Option (Engine × List String))
    → IsComplete (value_of s.eng) o
    → IsFollowed s
        (o >>= λ updated. notify_contexts (in_order updated.1) (record s { eng = updated.0 }))
IsFollowed-updated s none complete = tt
IsFollowed-updated s (some r) complete =
    IsFollowed-IsPosted s r.0 r.1 complete (notify_contexts (in_order r.1) (record s { eng = r.0 }))
      (notify_contexts-IsPosted (in_order r.1) (record s { eng = r.0 }))

set_context-IsFollowed :
    (name : String) (v : Bool) (s : SmartContext) → IsFollowed s (set_context name v s)
unfolding set_context
set_context-IsFollowed name v s =
    IsFollowed-updated s (update_system_symbol has_at (enough_fuel s.eng name) s.eng name v)
      (update_system_symbol-IsComplete has_at (enough_fuel s.eng name) s.eng name v)

-- The counts play no part.
IsFollowed-counts :
    (s : SmartContext) (f : String → Option ℕ) (o : Option SmartContext)
    → IsFollowed (record s { native_context_ref = f }) o
    → IsFollowed s o
IsFollowed-counts s f none h = tt
IsFollowed-counts s f (some s') h = record {
  added = h.added;
  notices = h.notices;
  values = h.values;
}

module _ (name : String) (s : SmartContext) where
  abbrev counts : Option ℕ → String → Option ℕ
  counts o = λ j. if str_eq name j then o else s.native_context_ref j

  abbrev recounted : Option ℕ → SmartContext
  recounted o = record s { native_context_ref = counts o }

  entered-IsFollowed : (o : Option ℕ) (v : Bool) → IsFollowed s (set_context name v (recounted o))
  entered-IsFollowed o v =
      IsFollowed-counts s (counts o) (set_context name v (recounted o))
        (set_context-IsFollowed name v (recounted o))

  recounted-IsFollowed : (o : Option ℕ) → IsFollowed s (some (recounted o))
  recounted-IsFollowed o =
      IsFollowed-counts s (counts o) (some (recounted o)) (Follows-refl (recounted o))

  pub get_native_context-IsFollowed : IsFollowed s (get_native_context name s)
  unfolding get_native_context
  get_native_context-IsFollowed = elim (Option-cases (s.native_context_ref name)) [
    | inl absent ↦ rw (get_native_context, absent) (entered-IsFollowed (some 1) true)
    | inr (n, present) ↦
        rw (get_native_context, present) (recounted-IsFollowed (some (int_add n 1)))
  ]

  pub put_native_context-IsFollowed : IsFollowed s (put_native_context name s)
  unfolding put_native_context
  put_native_context-IsFollowed = elim (Option-cases (s.native_context_ref name)) [
    | inl absent ↦ rw (put_native_context, absent) (Follows-refl s)
    | inr (n, present) ↦ elim (Bool-cases (n == 1)) [
      | inl last ↦ rw (put_native_context, present, last) (entered-IsFollowed none false)
      | inr more ↦
          rw (put_native_context, present, more) (recounted-IsFollowed (some (int_add n minus_one)))
    ]
  ]

change_context-IsFollowed : (r : WifiRule) (s : SmartContext) → IsFollowed s (change_context r s)
unfolding change_context
change_context-IsFollowed r s =
    elim (Bool-cases ((r.last_ref_count == 0) && is_positive r.ref_count)) [
      | inl got ↦ rw (got) (get_native_context-IsFollowed r.result_context s)
      | inr not_got ↦ elim (Bool-cases (is_positive r.last_ref_count && (r.ref_count == 0))) [
        | inl left ↦ rw (not_got, left) (put_native_context-IsFollowed r.result_context s)
        | inr not_left ↦ rw (not_got, not_left) (Follows-refl s)
      ]
    ]

change_contexts-IsFollowed :
    (f : ℕ → WifiRule) (is : List ℕ) (s : SmartContext) → IsFollowed s (change_contexts f is s)
unfolding change_contexts
change_contexts-IsFollowed f [] s = Follows-refl s
change_contexts-IsFollowed f (i ∷ is) s =
    IsFollowed->>= s (change_context (f i) s) (change_contexts f is)
      (change_context-IsFollowed (f i) s) (change_contexts-IsFollowed f is)

abbrev pub IsScanFollowed : SmartContext → Option (WifiContext × SmartContext) → Type 0
IsScanFollowed s none = Unit
IsScanFollowed s (some r) = Follows s r.1

IsScanFollowed-map :
    (s : SmartContext) (o : Option SmartContext) (w : WifiContext)
    → IsFollowed s o
    → IsScanFollowed s (o >>= λ s'. some (w, s'))
IsScanFollowed-map s none w h = tt
IsScanFollowed-map s (some s') w h = h

pub set_wifi_scan_result-IsScanFollowed :
    (result : List ScanResult) (w : WifiContext) (s : SmartContext)
    → IsScanFollowed s (set_wifi_scan_result result w s)
unfolding set_wifi_scan_result
set_wifi_scan_result-IsScanFollowed result w s =
    IsScanFollowed-map s (change_contexts (counted_rules result w) w.rules s)
      (record w { rule = counted_rules result w; wifi_last_scan_result = some result })
      (change_contexts-IsFollowed (counted_rules result w) w.rules s)
