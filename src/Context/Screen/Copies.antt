-- ===== src/Context/Screen/Copies.antt =====
-- How many tags of a name EntryActivity shows: one for a name that is shown, and those that were put
-- beside it because it was told to be true again.
use mathlib.Core.List.{◌++◌ as ◌+++◌}
use sctx.Context.Engine.{Engine, includes, put}
use sctx.Context.Engine.Names.{has_name, distinct_names}
use sctx.Context.Screen.{
  EntryActivity, Screen, Reset, Task, notice, reset, add_tag, remove_tag, show_notice, add_tags,
  refill, run_task, run_tasks, true_names,
}
use sctx.Context.Screen.Shown.{
  shown_in, resumed_in, shown_after, resumed-run_task, shown-run_task, has_name-true_names,
}
use sctx.Context.Screen.Steps.{tasks_of, all_once}
use sctx.Context.Screen.Tags.{
  is_label, times, Labelled, IsLabelled, Labelled-add_tag, emptied-Labelled, IsLabelled-run_task,
}
use sctx.Context.Wifi.{without}
use sctx.Prelude.{
  ℕ, ◌+◌, ◌-◌, ◌≤◌, String, ◌≡◌, refl, Bool, true, false, ◌&&◌, Option, none, some, List, [], ◌∷◌,
  str_eq, eq_iff, if◌then◌else◌, Option-cases, inl, inr, ◌∙◌, sym, subst, arith,
}

-- 1 for true.
abbrev pub one_if : Bool → ℕ
one_if b = if b then 1 else 0

-- The tags of a container whose text is the name.
unfoldable pub copies_in : (ℕ → String) → List ℕ → String → ℕ
copies_in text [] n = 0
copies_in text (t ∷ ts) n = one_if (str_eq (text t) n) + copies_in text ts n

unfoldable pub copies : Option EntryActivity → String → ℕ
unfolding copies_in
copies none n = 0
copies (some a) n = copies_in a.tag_text a.context_view_container n

-- The tags of a name besides the one in the map.
unfoldable pub extra : Option EntryActivity → String → ℕ
unfolding copies shown_in
extra o n = copies o n - one_if (shown_in o n)

-- The same after the tasks, from the names that are shown and the tags besides: one more for each
-- notice that the name is true while it is shown, and none after a reset.
unfoldable pub surplus : List Task → (String → Bool) → String → ℕ → ℕ
unfolding has_name
surplus [] f n x = x
surplus (notice m v ∷ ts) f n x =
    surplus ts (λ k. if str_eq m k then v else f k) n (x + one_if (str_eq m n && (v && f n)))
surplus (reset r ∷ ts) f n x = surplus ts (has_name r.ctx_list) n 0

copies-append :
    (text : ℕ → String) (xs ys : List ℕ) (n : String)
    → copies_in text (xs +++ ys) n ≡ copies_in text xs n + copies_in text ys n
unfolding copies_in
copies-append text [] ys n = omega arith
copies-append text (x ∷ xs) ys n = omega (arith, copies-append text xs ys n)

-- A tag that is not in the container may get any text.
copies-put :
    (text : ℕ → String) (xs : List ℕ) (t : ℕ) (m n : String)
    → times xs t ≡ 0
    → copies_in (put text t m) xs n ≡ copies_in text xs n
unfolding copies_in times
copies-put text [] t m n h = refl
copies-put text (x ∷ xs) t m n h = ground (arith, h, copies-put text xs t m n)

copies-without :
    (text : ℕ → String) (xs : List ℕ) (t : ℕ) (n : String)
    → copies_in text xs n
      ≡ copies_in text (without xs t) n + (if str_eq (text t) n then times xs t else 0)
unfolding copies_in times without
copies-without text [] t n = ground arith
copies-without text (x ∷ xs) t n = ground (arith, copies-without text xs t n)

times-includes : (xs : List ℕ) (t : ℕ) → includes xs t ≡ true → 1 ≤ times xs t
unfolding includes times
times-includes [] t h = absurd (ground (arith, h))
times-includes (x ∷ xs) t h = ground (arith, h, times-includes xs t)

copies-includes :
    (text : ℕ → String) (xs : List ℕ) (t : ℕ) (n : String)
    → includes xs t ≡ true
    → str_eq (text t) n ≡ true
    → 1 ≤ copies_in text xs n
unfolding includes copies_in
copies-includes text [] t n h named = absurd (ground (arith, h))
copies-includes text (x ∷ xs) t n h named = ground (arith, h, named, copies-includes text xs t n)

module _ (m : String) (a : EntryActivity) (h : Labelled a) (n : String) where
  copies-add_tag : copies (some (add_tag m a)) n ≡ copies (some a) n + one_if (str_eq m n)
  unfolding copies add_tag copies_in
  copies-add_tag = ground (
    arith,
    copies-append (put a.tag_text a.next_tag m) a.context_view_container (a.next_tag ∷ []) n,
    copies-put a.tag_text a.context_view_container a.next_tag m n (h.made a.next_tag (omega arith)),
  )

  copies-remove_tag :
      copies (some (remove_tag m a)) n + one_if (str_eq m n && shown_in (some a) m)
      ≡ copies (some a) n
  unfolding copies remove_tag shown_in is_label
  copies-remove_tag = elim (Option-cases (a.context_views m)) [
    | inl absent ↦ ground (arith, absent)
    | inr (u, there) ↦ ground (
      arith,
      there,
      h.labels m,
      eq_iff (a.tag_text u) m,
      h.once u,
      times-includes a.context_view_container u,
      copies-without a.tag_text a.context_view_container u n,
    )
  ]

-- A name that is shown has a tag.
copies-shown :
    (o : Option EntryActivity) (n : String) → IsLabelled o → one_if (shown_in o n) ≤ copies o n
unfolding copies shown_in is_label
copies-shown none n h = omega arith
copies-shown (some a) n h = elim (Option-cases (a.context_views n)) [
  | inl absent ↦ ground (arith, absent)
  | inr (t, there) ↦
      ground (arith, there, h.labels n, copies-includes a.tag_text a.context_view_container t n)
]

pub copies-extra :
    (o : Option EntryActivity) (n : String)
    → IsLabelled o
    → copies o n ≡ one_if (shown_in o n) + extra o n
unfolding extra
copies-extra o n h = omega (arith, copies-shown o n h)

copies-add_tags :
    (ns : List String) (a : EntryActivity) (n : String)
    → Labelled a
    → distinct_names ns ≡ true
    → copies (some (add_tags ns a)) n ≡ copies (some a) n + one_if (has_name ns n)
unfolding add_tags has_name distinct_names
copies-add_tags [] a n h d = omega arith
copies-add_tags (m ∷ ns) a n h d = ground (
  arith,
  d,
  eq_iff m n,
  copies-add_tag m a h n,
  copies-add_tags ns (add_tag m a) n (Labelled-add_tag m a h),
)

copies-refill :
    (r : Reset) (o : Option EntryActivity) (n : String)
    → resumed_in o ≡ true
    → distinct_names r.ctx_list ≡ true
    → copies (refill r o) n ≡ one_if (has_name r.ctx_list n)
unfolding refill resumed_in copies copies_in
copies-refill r none n live d = absurd (ground (arith, live))
copies-refill r (some a) n live d =
    let bare : EntryActivity = record a {
      is_resumed = true;
      context_views = λ k. none;
      context_view_container = [];
      wifi_symbols_container = r.wifi_symbol_list;
    } in
    let awake : EntryActivity = record a { is_resumed = true } in
    rw (live) (
      subst (λ k. copies (some (add_tags r.ctx_list bare)) n ≡ k) (omega arith)
        (copies-add_tags r.ctx_list bare n (emptied-Labelled r awake) d))

copies-show_notice :
    (m : String) (v : Bool) (o : Option EntryActivity) (n : String) (x : ℕ)
    → resumed_in o ≡ true
    → IsLabelled o
    → copies o n ≡ one_if (shown_in o n) + x
    → copies (show_notice m v o) n
      ≡ one_if (if str_eq m n then v else shown_in o n)
        + (x + one_if (str_eq m n && (v && shown_in o n)))
unfolding show_notice resumed_in
copies-show_notice m v none n x live h e = absurd (ground (arith, live))
copies-show_notice m true (some a) n x live h e = ground (arith, e, copies-add_tag m a h n)
copies-show_notice m false (some a) n x live h e =
    ground (arith, e, eq_iff m n, copies-remove_tag m a h n)

module _ (c : Bool) (n : String) where
  -- The tags of the name: one if it is shown, and some besides.
  abbrev Counted : Option EntryActivity → (String → Bool) → ℕ → Type 0
  Counted o f x = copies o n ≡ one_if (f n) + x

  Counted-notice :
      (m : String) (v : Bool) (s : Screen) (x : ℕ)
      → resumed_in s.ea ≡ true
      → IsLabelled s.ea
      → Counted s.ea (shown_in s.ea) x
      → Counted
          (run_task c (notice m v) s).ea
          (shown_after (notice m v ∷ []) (shown_in s.ea))
          (x + one_if (str_eq m n && (v && shown_in s.ea n)))
  unfolding run_task shown_after
  Counted-notice m v s x live h e = copies-show_notice m v s.ea n x live h e

  Counted-reset :
      (r : Reset) (s : Screen)
      → resumed_in s.ea ≡ true
      → distinct_names r.ctx_list ≡ true
      → Counted (run_task c (reset r) s).ea (shown_after (reset r ∷ []) (shown_in s.ea)) 0
  unfolding run_task shown_after
  Counted-reset r s live d = omega (arith, copies-refill r s.ea n live d)

  -- What one task makes, for the tasks after it.
  then_tasks :
      (t : Task) (ts : List Task) (s : Screen) (x : ℕ)
      → resumed_in s.ea ≡ true
      → Counted (run_task c t s).ea (shown_after (t ∷ []) (shown_in s.ea)) x
      → (Counted (run_task c t s).ea (shown_in (run_task c t s).ea) x
          → Counted
              (run_tasks c ts (run_task c t s)).ea
              (shown_after ts (shown_in (run_task c t s).ea))
              (surplus ts (shown_in (run_task c t s).ea) n x))
      → Counted
          (run_tasks c ts (run_task c t s)).ea
          (shown_after ts (shown_after (t ∷ []) (shown_in s.ea)))
          (surplus ts (shown_after (t ∷ []) (shown_in s.ea)) n x)
  then_tasks t ts s x live e rest =
      let shows = shown-run_task c t s live in
      let done : Option EntryActivity = (run_tasks c ts (run_task c t s)).ea in
      subst (λ f. Counted done (shown_after ts f) (surplus ts f n x)) shows
        (rest (subst (λ f. Counted (run_task c t s).ea f x) (sym shows) e))

  -- After the tasks: one tag of a name that is shown, and the surplus.
  pub copies-run_tasks :
      (ts : List Task) (s : Screen) (x : ℕ)
      → resumed_in s.ea ≡ true
      → IsLabelled s.ea
      → all_once ts ≡ true
      → Counted s.ea (shown_in s.ea) x
      → Counted
          (run_tasks c ts s).ea
          (shown_after ts (shown_in s.ea))
          (surplus ts (shown_in s.ea) n x)
  unfolding run_tasks shown_after surplus all_once
  copies-run_tasks [] s x live h d e = e
  copies-run_tasks (notice m v ∷ ts) s x live h d e =
      let x' : ℕ = x + one_if (str_eq m n && (v && shown_in s.ea n)) in
      then_tasks (notice m v) ts s x' live (Counted-notice m v s x live h e) (
        copies-run_tasks ts (run_task c (notice m v) s) x'
          (resumed-run_task c (notice m v) s ∙ live) (IsLabelled-run_task c (notice m v) s h) d)
  copies-run_tasks (reset r ∷ ts) s x live h d e =
      then_tasks (reset r) ts s 0 live (Counted-reset r s live (ground (arith, d))) (
        copies-run_tasks ts (run_task c (reset r) s) 0 (resumed-run_task c (reset r) s ∙ live)
          (IsLabelled-run_task c (reset r) s h) (ground (arith, d)))

pub all_once-append : (ts us : List Task) → all_once (ts +++ us) ≡ (all_once ts && all_once us)
unfolding all_once
all_once-append [] us = refl
all_once-append (notice m v ∷ ts) us = all_once-append ts us
all_once-append (reset r ∷ ts) us = ground (arith, all_once-append ts us)

pub all_once-tasks_of : (ns : List (String × Bool)) → all_once (tasks_of ns) ≡ true
unfolding all_once tasks_of
all_once-tasks_of [] = refl
all_once-tasks_of ((n, v) ∷ ns) = all_once-tasks_of ns

pub distinct_names-true_names :
    (e : Engine) (ns : List String)
    → distinct_names ns ≡ true
    → distinct_names (true_names e ns) ≡ true
unfolding distinct_names true_names
distinct_names-true_names e [] h = refl
distinct_names-true_names e (n ∷ ns) h =
    ground (arith, h, distinct_names-true_names e ns, has_name-true_names e ns n)
