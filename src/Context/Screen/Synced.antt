-- ===== src/Context/Screen/Synced.antt =====
-- EntryActivity and the engine: what the screen shows when the UI thread has done its tasks.
use mathlib.Core.List.{◌++◌ as ◌+++◌}
use mathlib.Core.Path.{fun_ext}
use sctx.Context.Engine.{Engine, value_of}
use sctx.Context.Screen.{
  EntryActivity, StringObject, Reset, Task, reset, run_task, run_tasks, reset_ui,
}
use sctx.Context.Screen.Shown.{
  shown_in, resumed_in, shown_after, shown_after-append, resumed-run_task, shown-run_task,
  shown-run_tasks, has_name-true_names,
}
use sctx.Context.Screen.Posting.{
  sent-all, resumed-there, there-run_task, all_once-more, all_once-tail,
}
use sctx.Context.Screen.Copies.{
  one_if, copies, extra, surplus, copies-extra, copies-run_tasks, all_once-tasks_of,
  distinct_names-true_names,
}
use sctx.Prelude.Options.{is_some}
use sctx.Context.Screen.Steps.{
  App, all_once, quiet, tasks_of, worked, with_reset, IsKeySet, Step, taken, given_back, scanned,
  rule_added, rules_removed, reset_called, task_run, created, resumed, paused, destroyed,
  rules_created, rules_resumed, rules_paused, rules_destroyed, Reached, started, stepped,
}
use sctx.Context.Screen.Tags.{
  IsLabelled, visible_in, visible_in-shown, is_label, times, Labelled, IsLabelled-run_task,
  IsLabelled-run_tasks,
}
use sctx.Context.Screen.Followed.{
  IsScanFollowed, get_native_context-IsFollowed, put_native_context-IsFollowed,
  set_wifi_scan_result-IsScanFollowed,
}
use sctx.Context.Screen.Told.{told_after, Follows, IsFollowed}
use sctx.Context.Smart.{SmartContext, get_native_context, put_native_context}
use sctx.Context.Wifi.{WifiContext}
use sctx.Prelude.{
  String, ◌+◌, false, ◌≡◌, ◌≢◌, refl, Bool, true, Option, none, some, List, [], ◌∷◌, str_eq, ◌∙◌,
  ap, sym, subst, if◌then◌else◌, arith,
}

-- While EntryActivity is resumed and no call of resetUI waits, its tasks bring it to the values of
-- the engine.
pub record Synced (a : App) : Type 0 where
  pub labelled : IsLabelled a.screen.ea
  pub connected : is_some a.screen.ea ≡ true → a.ui_handler ≡ true
  pub lists : all_once a.ui_queue ≡ true
  pub shown :
      resumed_in a.screen.ea ≡ true
      → a.resets ≡ []
      → shown_after a.ui_queue (shown_in a.screen.ea) ≡ value_of a.service.eng

shown_after-tasks_of :
    (ns : List (String × Bool)) (f : String → Bool) → shown_after (tasks_of ns) f ≡ told_after ns f
unfolding shown_after tasks_of told_after
shown_after-tasks_of [] f = refl
shown_after-tasks_of ((n, v) ∷ ns) f = shown_after-tasks_of ns (λ m. if str_eq n m then v else f m)

module _ (a : App) (y : Synced a) where
  Synced-worked :
      (w : WifiContext) (s : SmartContext) → Follows (quiet a.service) s → Synced (worked a w s)
  Synced-worked w s f = record {
    labelled = y.labelled;
    connected = y.connected;
    lists =
        all_once-more a.ui_queue (tasks_of s.notices) a.ui_handler y.lists
          (all_once-tasks_of s.notices);
    shown = λ live idle.
        ap (λ ts. shown_after (a.ui_queue +++ ts) (shown_in a.screen.ea))
          (sent-all a.ui_handler (tasks_of s.notices)
            (y.connected (resumed-there a.screen.ea live)))
        ∙ (shown_after-append a.ui_queue (tasks_of s.notices) (shown_in a.screen.ea)
            ∙ (ap (shown_after (tasks_of s.notices)) (y.shown live idle)
                ∙ (shown_after-tasks_of s.notices (value_of a.service.eng)
                    ∙ (ap (λ l. told_after l (value_of a.service.eng)) f.notices ∙ f.values))));
  }

  Synced-recounted :
      (s : SmartContext) (o : Option SmartContext)
      → IsFollowed (quiet a.service) o
      → o ≡ some s
      → Synced (worked a a.wifi s)
  Synced-recounted s o f e = Synced-worked a.wifi s (subst (IsFollowed (quiet a.service)) e f)

  Synced-task_run :
      (c : Bool) (t : Task) (rest : List Task)
      → a.ui_queue ≡ t ∷ rest
      → Synced (record a { screen = run_task c t a.screen; ui_queue = rest })
  Synced-task_run c t rest e = record {
    labelled = IsLabelled-run_task c t a.screen y.labelled;
    connected = λ there. y.connected (sym (there-run_task c t a.screen) ∙ there);
    lists = all_once-tail t rest (sym (ap all_once e) ∙ y.lists);
    shown = λ live idle.
        let still : resumed_in a.screen.ea ≡ true = sym (resumed-run_task c t a.screen) ∙ live in
        ap (shown_after rest) (shown-run_task c t a.screen still)
        ∙ (sym (shown_after-append (t ∷ []) rest (shown_in a.screen.ea))
            ∙ (ap (λ q. shown_after q (shown_in a.screen.ea)) (sym e) ∙ y.shown still idle));
  }

append-ne-nil {ℓ} : {A : Type ℓ} (xs : List A) (x : A) → (xs +++ (x ∷ [])) ≢ []
append-ne-nil [] x h = cc
append-ne-nil (y ∷ xs) x h = cc

reset-value_of :
    (keys : List String) (name : Option StringObject) (w : WifiContext) (e : Engine)
    (f : String → Bool)
    → IsKeySet keys e
    → shown_after (reset (reset_ui keys name w e) ∷ []) f ≡ value_of e
unfolding shown_after reset_ui value_of
reset-value_of keys name w e f all =
    fun_ext (λ n. ground (arith, has_name-true_names e keys n, all.all n))

reset-all_once :
    (keys : List String) (name : Option StringObject) (w : WifiContext) (e : Engine)
    → IsKeySet keys e
    → all_once (reset (reset_ui keys name w e) ∷ []) ≡ true
unfolding all_once reset_ui
reset-all_once keys name w e all = ground (arith, distinct_names-true_names e keys all.once)

Synced-with_reset :
    (a : App) (keys : List String) (name : Option StringObject)
    → IsLabelled a.screen.ea
    → (is_some a.screen.ea ≡ true → a.ui_handler ≡ true)
    → all_once a.ui_queue ≡ true
    → IsKeySet keys a.service.eng
    → Synced (with_reset a keys name)
Synced-with_reset a keys name labelled connected lists all = record {
  labelled = labelled;
  connected = connected;
  lists =
      all_once-more a.ui_queue (reset (reset_ui keys name a.wifi a.service.eng) ∷ []) a.ui_handler
        lists (reset-all_once keys name a.wifi a.service.eng all);
  shown = λ live idle.
      let before : String → Bool = shown_after a.ui_queue (shown_in a.screen.ea) in
      let r : Reset = reset_ui keys name a.wifi a.service.eng in
      ap (λ ts. shown_after (a.ui_queue +++ ts) (shown_in a.screen.ea))
        (sent-all a.ui_handler (reset r ∷ []) (connected (resumed-there a.screen.ea live)))
      ∙ (shown_after-append a.ui_queue (reset r ∷ []) (shown_in a.screen.ea)
          ∙ reset-value_of keys name a.wifi a.service.eng before all);
}

Labelled-again :
    (on : Bool) (e : EntryActivity) → Labelled e → Labelled (record e { is_resumed = on })
unfolding is_label
Labelled-again on e h = record { labels = h.labels; once = h.once; made = h.made }

module _ (c : Bool) where
  Synced-Step : {a b : App} → Step c a b → Synced a → Synced b
  unfolding resumed_in is_label times
  Synced-Step {a} (taken name s e) y =
      Synced-recounted a y s (get_native_context name (quiet a.service))
        (get_native_context-IsFollowed name (quiet a.service)) e
  Synced-Step {a} (given_back name s e) y =
      Synced-recounted a y s (put_native_context name (quiet a.service))
        (put_native_context-IsFollowed name (quiet a.service)) e
  Synced-Step {a} (scanned result w s e) y = Synced-worked a y w s (
      subst (IsScanFollowed (quiet a.service)) e
        (set_wifi_scan_result-IsScanFollowed result a.wifi (quiet a.service)))
  Synced-Step {a} (rule_added i name keys all) y =
      Synced-with_reset _ keys (some name) y.labelled y.connected y.lists all
  Synced-Step {a} (rules_removed symbol ssid name w keys e all) y =
      Synced-with_reset _ keys name y.labelled y.connected y.lists all
  Synced-Step {a} (reset_called name rest keys e all) y =
      Synced-with_reset _ keys name y.labelled y.connected y.lists all
  Synced-Step {a} (task_run t rest e) y = Synced-task_run a y c t rest e
  Synced-Step {a} (created next text e) y = record {
    labelled = record { labels = λ n. refl; once = λ t. omega arith; made = λ t le. refl };
    connected = λ there. refl;
    lists = y.lists;
    shown = λ live idle. absurd (ground (arith, live));
  }
  Synced-Step {a} (resumed e there) y = record {
    labelled = Labelled-again true e (subst IsLabelled there y.labelled);
    connected = λ h. y.connected (ap is_some there);
    lists = y.lists;
    shown = λ live idle. absurd (append-ne-nil a.resets none idle);
  }
  Synced-Step {a} (paused e there) y = record {
    labelled = Labelled-again false e (subst IsLabelled there y.labelled);
    connected = λ h. y.connected (ap is_some there);
    lists = y.lists;
    shown = λ live idle. absurd (ground (arith, live));
  }
  Synced-Step {a} destroyed y = record {
    labelled = tt;
    connected = λ there. absurd (ground (arith, there));
    lists = y.lists;
    shown = λ live idle. absurd (ground (arith, live));
  }
  Synced-Step {a} (rules_created b e i) y = record {
    labelled = y.labelled;
    connected = λ there. refl;
    lists = y.lists;
    shown = y.shown;
  }
  Synced-Step {a} (rules_resumed b e) y = record {
    labelled = y.labelled;
    connected = y.connected;
    lists = y.lists;
    shown = λ live idle. absurd (append-ne-nil a.resets (some b.symbol_name) idle);
  }
  Synced-Step {a} (rules_paused b e) y = record {
    labelled = y.labelled;
    connected = y.connected;
    lists = y.lists;
    shown = y.shown;
  }
  Synced-Step {a} rules_destroyed y = record {
    labelled = y.labelled;
    connected = y.connected;
    lists = y.lists;
    shown = y.shown;
  }

  pub Reached-Synced : {a : App} → Reached c a → Synced a
  Reached-Synced (started a keys labelled connected lists all) =
      Synced-with_reset a keys none labelled connected lists all
  Reached-Synced (stepped r step) = Synced-Step step (Reached-Synced r)

  -- In every state that the service, the activities and their queues reach, while EntryActivity is
  -- resumed and no call of resetUI waits: when the UI thread has done its tasks, a name has its tag in
  -- the map and in the container exactly when it is true in the engine. The container then has one
  -- tag of a true name and none of another, and besides these one for each tag of the name that it
  -- has now besides the one in the map, and one for each notice that the name is true that meets it
  -- shown; those from before a task of resetUI, which clears the container, do not count.
  pub Reached-visible :
      (a : App) (n : String)
      → Reached c a
      → resumed_in a.screen.ea ≡ true
      → a.resets ≡ []
      → (visible_in (run_tasks c a.ui_queue a.screen).ea n ≡ value_of a.service.eng n)
        × (copies (run_tasks c a.ui_queue a.screen).ea n
            ≡ one_if (value_of a.service.eng n)
              + surplus a.ui_queue (shown_in a.screen.ea) n (extra a.screen.ea n))
  Reached-visible a n r live idle =
      let y : Synced a = Reached-Synced r in
      (
        visible_in-shown (run_tasks c a.ui_queue a.screen).ea n
              (IsLabelled-run_tasks c a.ui_queue a.screen y.labelled)
            ∙ ap (λ (f : String → Bool). f n)
                (shown-run_tasks c a.ui_queue a.screen live ∙ y.shown live idle),
        copies-run_tasks c n a.ui_queue a.screen (extra a.screen.ea n) live y.labelled y.lists
              (copies-extra a.screen.ea n y.labelled)
            ∙ ap
                (λ (f : String → Bool).
                  one_if (f n) + surplus a.ui_queue (shown_in a.screen.ea) n (extra a.screen.ea n))
                (y.shown live idle),
      )
