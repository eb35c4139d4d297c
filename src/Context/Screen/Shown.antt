-- ===== src/Context/Screen/Shown.antt =====
-- Which contexts EntryActivity shows after the runnables that wait for the UI thread.
use mathlib.Core.Path.{fun_ext}
use sctx.Context.Engine.Names.{has_name}
use sctx.Context.Engine.{Engine, value_of}
use sctx.Context.Screen.{
  EntryActivity, Screen, Reset, Task, notice, reset, add_tag, remove_tag, show_notice, add_tags,
  refill, run_task, run_tasks, true_names,
}
use sctx.Prelude.Options.{is_some}
use sctx.Prelude.{
  String, ◌≡◌, refl, Bool, true, false, ◌||◌, ◌&&◌, Option, none, some, List, [], ◌∷◌, ◌++◌, ◌∙◌,
  ap, sym, str_eq, eq_iff, if◌then◌else◌, arith,
}

-- The names that the map has a tag for.
unfoldable pub shown_in : Option EntryActivity → String → Bool
shown_in none n = false
shown_in (some a) n = is_some (a.context_views n)

unfoldable pub resumed_in : Option EntryActivity → Bool
resumed_in none = false
resumed_in (some a) = a.is_resumed

-- The names shown after the tasks, from those that are shown now.
unfoldable pub shown_after : List Task → (String → Bool) → String → Bool
unfolding has_name
shown_after [] f = f
shown_after (notice m v ∷ ts) f = shown_after ts (λ n. if str_eq m n then v else f n)
shown_after (reset r ∷ ts) f = shown_after ts (has_name r.ctx_list)

pub shown_after-append :
    (ts us : List Task) (f : String → Bool)
    → shown_after (ts ++ us) f ≡ shown_after us (shown_after ts f)
unfolding shown_after
shown_after-append [] us f = refl
shown_after-append (notice m v ∷ ts) us f =
    shown_after-append ts us (λ n. if str_eq m n then v else f n)
shown_after-append (reset r ∷ ts) us f = shown_after-append ts us (has_name r.ctx_list)

shown-add_tags :
    (ns : List String) (a : EntryActivity) (n : String)
    → is_some ((add_tags ns a).context_views n) ≡ (has_name ns n || is_some (a.context_views n))
unfolding add_tags add_tag has_name
shown-add_tags [] a n = refl
shown-add_tags (m ∷ ns) a n = ground (arith, shown-add_tags ns (add_tag m a) n)

resumed-add_tags :
    (ns : List String) (a : EntryActivity) → (add_tags ns a).is_resumed ≡ a.is_resumed
unfolding add_tags add_tag
resumed-add_tags [] a = refl
resumed-add_tags (m ∷ ns) a = resumed-add_tags ns (add_tag m a)

shown-refill :
    (r : Reset) (a : EntryActivity) (n : String)
    → a.is_resumed ≡ true
    → shown_in (refill r (some a)) n ≡ has_name r.ctx_list n
unfolding refill shown_in
shown-refill r a n live = rw (live) (
    ground (
      arith,
      shown-add_tags r.ctx_list
          (record a {
            context_views = λ k. none;
            context_view_container = [];
            wifi_symbols_container = r.wifi_symbol_list;
          })
          n,
    ))

resumed-refill : (r : Reset) (o : Option EntryActivity) → resumed_in (refill r o) ≡ resumed_in o
unfolding refill resumed_in
resumed-refill r none = refl
resumed-refill r (some a) = ground (
  arith,
  resumed-add_tags r.ctx_list (record a {
    context_views = λ k. none;
    context_view_container = [];
    wifi_symbols_container = r.wifi_symbol_list;
  }),
)

resumed-show_notice :
    (m : String) (v : Bool) (o : Option EntryActivity)
    → resumed_in (show_notice m v o) ≡ resumed_in o
unfolding show_notice resumed_in add_tag remove_tag
resumed-show_notice m v none = refl
resumed-show_notice m true (some a) = refl
resumed-show_notice m false (some a) = refl

shown-show_notice :
    (m : String) (v : Bool) (o : Option EntryActivity) (n : String)
    → resumed_in o ≡ true
    → shown_in (show_notice m v o) n ≡ (if str_eq m n then v else shown_in o n)
unfolding show_notice shown_in resumed_in add_tag remove_tag
shown-show_notice m v none n live = absurd (ground (arith, live))
shown-show_notice m true (some a) n live = ground arith
shown-show_notice m false (some a) n live = ground arith

-- No task resumes or pauses the activity.
pub resumed-run_task :
    (c : Bool) (t : Task) (s : Screen) → resumed_in (run_task c t s).ea ≡ resumed_in s.ea
unfolding run_task
resumed-run_task c (notice m v) s = resumed-show_notice m v s.ea
resumed-run_task c (reset r) s = resumed-refill r s.ea

pub resumed-run_tasks :
    (c : Bool) (ts : List Task) (s : Screen) → resumed_in (run_tasks c ts s).ea ≡ resumed_in s.ea
unfolding run_tasks
resumed-run_tasks c [] s = refl
resumed-run_tasks c (t ∷ ts) s = resumed-run_tasks c ts (run_task c t s) ∙ resumed-run_task c t s

shown-refill_in :
    (r : Reset) (o : Option EntryActivity) (n : String)
    → resumed_in o ≡ true
    → shown_in (refill r o) n ≡ has_name r.ctx_list n
unfolding resumed_in
shown-refill_in r none n live = absurd (ground (arith, live))
shown-refill_in r (some a) n live = shown-refill r a n live

pub shown-run_task :
    (c : Bool) (t : Task) (s : Screen)
    → resumed_in s.ea ≡ true
    → shown_in (run_task c t s).ea ≡ shown_after (t ∷ []) (shown_in s.ea)
unfolding run_task shown_after
shown-run_task c (notice m v) s live = fun_ext (λ n. shown-show_notice m v s.ea n live)
shown-run_task c (reset r) s live = fun_ext (λ n. shown-refill_in r s.ea n live)

-- In a resumed EntryActivity, the names that are shown after the tasks are those of `shown_after`.
pub shown-run_tasks :
    (c : Bool) (ts : List Task) (s : Screen)
    → resumed_in s.ea ≡ true
    → shown_in (run_tasks c ts s).ea ≡ shown_after ts (shown_in s.ea)
unfolding run_tasks shown_after
shown-run_tasks c [] s live = refl
shown-run_tasks c (t ∷ ts) s live =
    shown-run_tasks c ts (run_task c t s) (resumed-run_task c t s ∙ live)
    ∙ (ap (shown_after ts) (shown-run_task c t s live)
        ∙ sym (shown_after-append (t ∷ []) ts (shown_in s.ea)))

pub has_name-true_names :
    (e : Engine) (ns : List String) (n : String)
    → has_name (true_names e ns) n ≡ (has_name ns n && value_of e n)
unfolding true_names has_name
has_name-true_names e [] n = refl
has_name-true_names e (m ∷ ns) n = ground (arith, has_name-true_names e ns n, eq_iff m n)
