-- ===== src/Context/Screen/Posting.antt =====
-- What reaches the UI thread: tasks that are posted, and the handler that takes them.
use mathlib.Core.List.{◌++◌ as ◌+++◌}
use sctx.Context.Screen.{EntryActivity, Screen, notice, show_notice, refill, Task, reset, run_task}
use sctx.Context.Screen.Shown.{resumed_in}
use sctx.Context.Screen.Copies.{all_once-append}
use sctx.Prelude.Options.{is_some}
use sctx.Context.Screen.Steps.{sent, all_once}
use sctx.Prelude.{
  false, Option-cases, inl, inr, ◌≡◌, refl, Bool, true, Option, none, some, List, ◌∷◌, arith,
}

pub sent-all : (h : Bool) (ts : List Task) → h ≡ true → sent h ts ≡ ts
unfolding sent
sent-all h ts on = ground (arith, on)

pub resumed-there : (o : Option EntryActivity) → resumed_in o ≡ true → is_some o ≡ true
unfolding resumed_in
resumed-there none live = absurd (ground (arith, live))
resumed-there (some e) live = refl

pub there-run_task : (c : Bool) (t : Task) (s : Screen) → is_some (run_task c t s).ea ≡ is_some s.ea
unfolding run_task show_notice refill
there-run_task c (notice n v) s = elim (Option-cases s.ea) [
  | inl gone ↦ rw (gone) refl
  | inr (e, there) ↦ rw (there) refl
]
there-run_task c (reset r) s = elim (Option-cases s.ea) [
  | inl gone ↦ rw (gone) refl
  | inr (e, there) ↦ ground (arith, there)
]

pub all_once-sent : (h : Bool) (ts : List Task) → all_once ts ≡ true → all_once (sent h ts) ≡ true
unfolding sent all_once
all_once-sent true ts d = d
all_once-sent false ts d = refl

pub all_once-more :
    (ts us : List Task) (h : Bool)
    → all_once ts ≡ true
    → all_once us ≡ true
    → all_once (ts +++ sent h us) ≡ true
all_once-more ts us h d e = ground (arith, d, all_once-append ts (sent h us), all_once-sent h us e)

pub all_once-tail : (t : Task) (ts : List Task) → all_once (t ∷ ts) ≡ true → all_once ts ≡ true
unfolding all_once
all_once-tail (notice n v) ts d = d
all_once-tail (reset r) ts d = ground (arith, d)
