-- ===== src/Context/Screen/Tags.antt =====
-- The tags of EntryActivity: each name in its map has a tag in the container, with the name as text.
use mathlib.Core.List.{◌++◌ as ◌+++◌}
use sctx.Context.Engine.{includes}
use sctx.Context.Screen.Shown.{shown_in}
use sctx.Context.Screen.{
  EntryActivity, Screen, Reset, Task, notice, reset, add_tag, remove_tag, show_notice, add_tags,
  refill, run_task, run_tasks,
}
use sctx.Context.Wifi.{without}
use sctx.Context.Wifi.Index.{includes-without}
use sctx.Prelude.{
  ℕ, String, ◌≡◌, refl, Bool, true, false, ◌||◌, ◌&&◌, Option, none, some, List, [], ◌∷◌, str_eq,
  eq_iff, eq_refl, if◌then◌else◌, ltb, ◌+◌, ◌==◌, ◌≤◌, Option-cases, inl, inr, arith,
}

-- The tag of a name is in the container and has the name as its text.
unfoldable pub is_label : EntryActivity → String → Option ℕ → Bool
unfolding includes
is_label a n none = true
is_label a n (some t) =
    includes a.context_view_container t && (str_eq (a.tag_text t) n && ltb t a.next_tag)

-- How often a tag stands in the container.
unfoldable pub times : List ℕ → ℕ → ℕ
times [] t = 0
times (x ∷ xs) t = (if x == t then 1 else 0) + times xs t

-- No tag of the container stands there twice or is still to be made.
pub record Labelled (a : EntryActivity) : Type 0 where
  pub labels : (n : String) → is_label a n (a.context_views n) ≡ true
  pub once : (t : ℕ) → times a.context_view_container t ≤ 1
  pub made : (t : ℕ) → a.next_tag ≤ t → times a.context_view_container t ≡ 0

abbrev pub IsLabelled : Option EntryActivity → Type 0
IsLabelled none = Unit
IsLabelled (some a) = Labelled a

-- Whether a tag with the name as its text stands in the container, and in the map under the name.
unfoldable pub visible_tag : EntryActivity → String → Option ℕ → Bool
unfolding includes
visible_tag a n none = false
visible_tag a n (some t) = includes a.context_view_container t && str_eq (a.tag_text t) n

unfoldable pub visible_in : Option EntryActivity → String → Bool
unfolding visible_tag
visible_in none n = false
visible_in (some a) n = visible_tag a n (a.context_views n)

pub visible_in-shown :
    (o : Option EntryActivity) (n : String) → IsLabelled o → visible_in o n ≡ shown_in o n
unfolding visible_in shown_in is_label
visible_in-shown none n h = refl
visible_in-shown (some a) n h = ground (arith, h.labels n)

includes-append :
    (xs ys : List ℕ) (i : ℕ) → includes (xs +++ ys) i ≡ (includes xs i || includes ys i)
unfolding includes
includes-append [] ys i = refl
includes-append (x ∷ xs) ys i = ground (arith, includes-append xs ys i)

pub times-append : (xs ys : List ℕ) (t : ℕ) → times (xs +++ ys) t ≡ times xs t + times ys t
unfolding times
times-append [] ys t = omega arith
times-append (x ∷ xs) ys t = omega (arith, times-append xs ys t)

times-without :
    (xs : List ℕ) (u t : ℕ) → times (without xs u) t ≡ (if u == t then 0 else times xs t)
unfolding times without
times-without [] u t = ground arith
times-without (x ∷ xs) u t = ground (arith, times-without xs u t)

module _ (m : String) (a : EntryActivity) (h : Labelled a) where
  labels-add_tag : (n : String) → is_label (add_tag m a) n ((add_tag m a).context_views n) ≡ true
  unfolding add_tag is_label includes
  labels-add_tag n = elim (Option-cases (a.context_views n)) [
    | inl absent ↦ ground (
      arith,
      absent,
      eq_iff m n,
      includes-append a.context_view_container (a.next_tag ∷ []) a.next_tag,
      eq_refl m,
    )
    | inr (t, here) ↦ ground (
      arith,
      here,
      h.labels n,
      eq_iff m n,
      includes-append a.context_view_container (a.next_tag ∷ []) a.next_tag,
      includes-append a.context_view_container (a.next_tag ∷ []) t,
      eq_refl m,
    )
  ]

  pub Labelled-add_tag : Labelled (add_tag m a)
  unfolding add_tag times
  Labelled-add_tag = record {
    labels = labels-add_tag;
    once = λ t.
        ground
          (arith, h.once t, h.made t, times-append a.context_view_container (a.next_tag ∷ []) t);
    made = λ t le.
        ground (arith, h.made t, le, times-append a.context_view_container (a.next_tag ∷ []) t);
  }

  labels-remove_tag :
      (n : String) → is_label (remove_tag m a) n ((remove_tag m a).context_views n) ≡ true
  unfolding remove_tag is_label
  labels-remove_tag n = elim (Option-cases (a.context_views m)) [
    | inl absent ↦ ground (arith, absent, h.labels n)
    | inr (u, gone) ↦ elim (Option-cases (a.context_views n)) [
      | inl absent ↦ ground (arith, absent, gone)
      | inr (t, here) ↦ ground (
        arith,
        here,
        gone,
        h.labels n,
        h.labels m,
        eq_iff m n,
        eq_iff (a.tag_text t) n,
        eq_iff (a.tag_text u) m,
        includes-without a.context_view_container u t,
      )
    ]
  ]

  pub Labelled-remove_tag : Labelled (remove_tag m a)
  unfolding remove_tag
  Labelled-remove_tag = elim (Option-cases (a.context_views m)) [
    | inl absent ↦ record {
      labels = labels-remove_tag;
      once = λ t. ground (arith, absent, h.once t);
      made = λ t le. ground (arith, absent, h.made t, le);
    }
    | inr (u, gone) ↦ record {
      labels = labels-remove_tag;
      once = λ t. ground (arith, gone, h.once t, times-without a.context_view_container u t);
      made = λ t le. ground (arith, gone, h.made t, le, times-without a.context_view_container u t);
    }
  ]

Labelled-add_tags : (ns : List String) (a : EntryActivity) → Labelled a → Labelled (add_tags ns a)
unfolding add_tags
Labelled-add_tags [] a h = h
Labelled-add_tags (n ∷ ns) a h = Labelled-add_tags ns (add_tag n a) (Labelled-add_tag n a h)

IsLabelled-show_notice :
    (m : String) (v : Bool) (o : Option EntryActivity)
    → IsLabelled o
    → IsLabelled (show_notice m v o)
unfolding show_notice
IsLabelled-show_notice m v none h = tt
IsLabelled-show_notice m true (some a) h = Labelled-add_tag m a h
IsLabelled-show_notice m false (some a) h = Labelled-remove_tag m a h

pub emptied-Labelled :
    (r : Reset) (a : EntryActivity)
    → Labelled (record a {
      context_views = λ n. none;
      context_view_container = [];
      wifi_symbols_container = r.wifi_symbol_list;
    })
unfolding is_label times
emptied-Labelled r a = record { labels = λ n. refl; once = λ t. omega arith; made = λ t le. refl }

IsLabelled-if :
    (b : Bool) (x y : Option EntryActivity)
    → IsLabelled x
    → IsLabelled y
    → IsLabelled (if b then x else y)
IsLabelled-if true x y h k = h
IsLabelled-if false x y h k = k

IsLabelled-refill : (r : Reset) (o : Option EntryActivity) → IsLabelled o → IsLabelled (refill r o)
unfolding refill
IsLabelled-refill r none h = tt
IsLabelled-refill r (some a) h =
    let bare : EntryActivity = record a {
      context_views = λ n. none;
      context_view_container = [];
      wifi_symbols_container = r.wifi_symbol_list;
    } in
    IsLabelled-if a.is_resumed (some (add_tags r.ctx_list bare)) (some a)
      (Labelled-add_tags r.ctx_list bare (emptied-Labelled r a)) h

pub IsLabelled-run_task :
    (c : Bool) (t : Task) (s : Screen) → IsLabelled s.ea → IsLabelled (run_task c t s).ea
unfolding run_task
IsLabelled-run_task c (notice m v) s h = IsLabelled-show_notice m v s.ea h
IsLabelled-run_task c (reset r) s h = IsLabelled-refill r s.ea h

pub IsLabelled-run_tasks :
    (c : Bool) (ts : List Task) (s : Screen) → IsLabelled s.ea → IsLabelled (run_tasks c ts s).ea
unfolding run_tasks
IsLabelled-run_tasks c [] s h = h
IsLabelled-run_tasks c (t ∷ ts) s h =
    IsLabelled-run_tasks c ts (run_task c t s) (IsLabelled-run_task c t s h)
