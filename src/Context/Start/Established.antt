-- ===== src/Context/Start/Established.antt =====
-- The state that onCreate of SmartContext makes is one that the theorems on scans and on the screen
-- are about.
use sctx.Context.Engine.{Engine, includes, value_of}
use sctx.Context.Engine.Parse.{init}
use sctx.Context.Screen.{Screen, true_names}
use sctx.Context.Screen.Steps.{App, sent, quiet, tasks_of, IsKeySet, Reached, started}
use sctx.Context.Screen.Copies.{all_once-tasks_of}
use sctx.Context.Screen.Posting.{all_once-sent}
use sctx.Context.Screen.Tags.{IsLabelled}
use sctx.Prelude.Options.{is_some}
use sctx.Context.Smart.{SmartContext}
use sctx.Context.Smart.Files.{init_context_eng, all_plain, Quiet, init_context_eng-init}
use sctx.Context.Start.{
  announce, open_own, start_wifi, start_engine, start_service, start_app, on_create,
}
use sctx.Context.Wifi.{WifiRule}
use sctx.Context.Wifi.Contexts.Scanned.{InStep}
use sctx.Context.Wifi.Contexts.Steps.{no_rules, no_contexts, created-InStep}
use sctx.Prelude.{
  ℕ, ◌<◌, String, ◌≡◌, refl, ℤ, Bool, true, Option, none, some, List, [], length, sym, subst, arith,
  Option-cases, inl, inr,
}
use sctx.Context.Start.Parts.{Kept, announce-Kept, InStep-Kept, add_rules-InStep}

-- The state made by onCreate, before anything else happens.
pub record Started (null_context : Bool) (a : App) : Type 0 where
  pub reached : Reached null_context a
  pub in_step : InStep a.wifi (quiet a.service)
  pub idle : a.resets ≡ []

abbrev pub IsStarted : Bool → Option App → Type 0
IsStarted c none = ⊥
IsStarted c (some a) = Started c a

-- The number of the lines of a file, if it is opened.
abbrev pub lines_in : Option (List String) → ℕ
lines_in none = 0
lines_in (some ls) = length ls

module _ (decode : String → Option String) (next_int : String → Option ℤ)
    (own_file asset file : String → Option (List String)) (f : ℕ → WifiRule) where
  abbrev engine_of : List String → Engine
  engine_of ls = init_context_eng decode own_file asset file ls init

  abbrev opened : String → Option (List String)
  opened path = open_own decode next_int own_file asset file path

  start_wifi-InStep :
      (s : SmartContext)
      → InStep (no_rules f) s
      → lines_in (opened "wifi_context.txt") < 2147483648
      → InStep (start_wifi decode next_int own_file asset file f) s
  unfolding start_wifi includes
  start_wifi-InStep s x bound = elim (Option-cases (opened "wifi_context.txt")) [
    | inl e ↦ rw (start_wifi, e) x
    | inr (ls, e) ↦
        rw (start_wifi, e)
          (add_rules-InStep decode next_int s 0 ls (no_rules f) x (λ i h. ground (arith, h))
            (ground (arith, bound, e)))
  ]

  start_service-Kept :
      (keys : List String) (e : Engine)
      → Kept (no_contexts e) (quiet (start_service decode next_int own_file asset file keys e))
  unfolding start_service
  start_service-Kept keys e =
      let k : Kept (no_contexts e) (announce (true_names e keys) (no_contexts e)) =
        announce-Kept (true_names e keys) (no_contexts e) in
      record { eng = k.eng; refs = k.refs }

  start_engine-opened :
      (ls : List String)
      → opened "symbol_rules.txt" ≡ some ls
      → start_engine decode next_int own_file asset file ≡ some (engine_of ls)
  unfolding start_engine
  start_engine-opened ls e = rw (start_engine, e) refl

  module _ (c : Bool) (ui : Bool) (key_order : Engine → List String) (screen : Screen)
      (ls : List String) (listed : opened "symbol_rules.txt" ≡ some ls)
      (plain : all_plain decode own_file asset file ls init ≡ true)
      (keys : IsKeySet (key_order (engine_of ls)) (engine_of ls)) (labelled : IsLabelled screen.ea)
      (connected : is_some screen.ea ≡ true → ui ≡ true)
      (bound : lines_in (opened "wifi_context.txt") < 2147483648) where
    abbrev e : Engine
    e = engine_of ls

    start_app-Started :
        Started c (start_app decode next_int own_file asset file ui key_order f screen e)
    unfolding start_app value_of
    start_app-Started =
        let q : Quiet e = init_context_eng-init decode own_file asset file ls plain in
        let s = quiet (start_service decode next_int own_file asset file (key_order e) e) in
        let k : Kept (no_contexts e) s = start_service-Kept (key_order e) e in
        let w = start_wifi decode next_int own_file asset file f in
        record {
          reached =
              started
                (record {
                  wifi = w;
                  service = s;
                  screen = screen;
                  ui_queue = sent ui (
                      tasks_of
                        (start_service decode next_int own_file asset file (key_order e)
                          e).notices);
                  resets = [];
                  ui_handler = ui;
                })
                (key_order e) labelled connected
                (all_once-sent ui
                  (tasks_of
                    (start_service decode next_int own_file asset file (key_order e) e).notices)
                  (all_once-tasks_of
                    (start_service decode next_int own_file asset file (key_order e) e).notices))
                (subst (IsKeySet (key_order e)) (sym k.eng) keys);
          in_step = InStep-Kept w (no_contexts e) s k (
              start_wifi-InStep (no_contexts e)
                (created-InStep f e q.valid (λ n at. ground (arith, q.unset n at))) bound);
          idle = refl;
        }

    -- Where the service can be registered, a screen that is there has registered its handler, the list
    -- of files is opened, no namespace in it has "@", no clause in its files has two
    -- literals of one name, the file of the wifi has fewer than 2 ^ 31 lines, the keys are those of
    -- the engine, and the tags on the screen, if any, are labelled: onCreate ends without an exception
    -- in a state from which the screen's states are reached, with rules and contexts in step and no
    -- call of resetUI waiting.
    pub on_create-IsStarted :
        IsStarted c (on_create decode next_int own_file asset file true ui key_order f screen)
    unfolding on_create
    on_create-IsStarted = rw (on_create, start_engine-opened ls listed) start_app-Started
