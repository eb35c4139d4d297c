-- ===== src/Context/Start/Parts.antt =====
-- The parts of onCreate of SmartContext: what announcing keeps, and the rules that are read.
use sctx.Context.Engine.{includes, put, value_of}
use sctx.Context.Engine.Parse.Valid.{Valid}
use sctx.Context.Smart.{SmartContext, notify_context}
use sctx.Context.Smart.Counted.{WellFormed, count}
use sctx.Context.Start.{notified_part, announce}
use sctx.Context.Text.{has_at, split_first}
use sctx.Context.Wifi.{WifiRule, WifiContext, add_rule, rules_of}
use sctx.Context.Wifi.Contexts.Scanned.{InStep}
use sctx.Context.Wifi.Contexts.Steps.{total-put, add_rule-InStep}
use sctx.Context.Wifi.Files.{read_rule, add_rules_from_reader}
use sctx.Prelude.Options.{is_some}
use sctx.Prelude.{
  ℕ, suc, ◌+◌, ◌<◌, ◌≤◌, String, ◌≡◌, refl, ℤ, true, false, Option, some, List, [], ◌∷◌, length,
  ◌∙◌, ap, sym, subst, arith, Option-cases, Bool-cases, inl, inr,
}

-- The engine and the counts stay.
pub record Kept (s s' : SmartContext) : Type 0 where
  pub eng : s'.eng ≡ s.eng
  pub refs : s'.native_context_ref ≡ s.native_context_ref

notify_context-Kept : (n : String) (s s' : SmartContext) → notify_context n s ≡ some s' → Kept s s'
unfolding notify_context
notify_context-Kept n s s' h = elim (Option-cases (s.eng.values n)) [
  | inl absent ↦ absurd (ground (arith, h, absent))
  | inr (v, here) ↦ elim (Bool-cases (has_at n)) [
    | inl at ↦ ground (arith, h, here, at)
    | inr plain ↦ elim (Option-cases (split_first b'$' n)) [
      | inl bad ↦ absurd (ground (arith, h, here, plain, bad))
      | inr (p, found) ↦ ground (arith, h, here, plain, found)
    ]
  ]
]

notified_part-Kept : (n : String) (s : SmartContext) → Kept s (notified_part n s)
unfolding notified_part
notified_part-Kept n s = ground arith

pub announce-Kept : (ns : List String) (s : SmartContext) → Kept s (announce ns s)
unfolding announce
announce-Kept [] s = record { eng = refl; refs = refl }
announce-Kept (n ∷ ns) s = elim (Option-cases (notify_context n s)) [
  | inl e ↦ rw (announce, e) (notified_part-Kept n s)
  | inr (t, e) ↦
      let k : Kept s t = notify_context-Kept n s t e in
      let r : Kept t (announce ns t) = announce-Kept ns t in
      rw (announce, e) (record { eng = r.eng ∙ k.eng; refs = r.refs ∙ k.refs })
]

count-Kept : (s t : SmartContext) (n : String) → Kept s t → count t n ≡ count s n
unfolding count
count-Kept s t n k = ground (arith, ap (λ f. f n) k.refs)

WellFormed-Kept : (s t : SmartContext) → Kept s t → WellFormed s → WellFormed t
WellFormed-Kept s t k w = record {
  valid = subst Valid (sym k.eng) w.valid;
  counts = λ n. ground (arith, ap (λ f. f n) k.refs, w.counts n);
  entered = λ n at.
      subst (λ e. value_of e n ≡ value_of s.eng n) (sym k.eng) refl
      ∙ (w.entered n at ∙ ap (λ f. is_some (f n)) (sym k.refs));
}

pub InStep-Kept : (w : WifiContext) (s t : SmartContext) → Kept s t → InStep w s → InStep w t
InStep-Kept w s t k x = record {
  indexed = x.indexed;
  well_formed = WellFormed-Kept s t k x.well_formed;
  few = x.few;
  range = x.range;
  counts = λ n. count-Kept s t n k ∙ x.counts n;
}

module _ (w : WifiContext) (s : SmartContext) (x : InStep w s) (i : ℕ) (r : WifiRule)
    (new : includes w.rules i ≡ false) where
  -- A rule object that is not among the rules is made.
  InStep-made : InStep (record w { rule = put w.rule i r }) s
  unfolding rules_of
  InStep-made = record {
    indexed = record {
      found = λ j h. ground (arith, x.indexed.found j h, new, h);
      only = λ j ssid h. ground (arith, x.indexed.only j ssid h, new);
      once = x.indexed.once;
      rules_once = x.indexed.rules_once;
      kept = x.indexed.kept;
    };
    well_formed = x.well_formed;
    few = x.few;
    range = λ j h. ground (arith, x.range j h, new, h);
    counts = λ n. x.counts n ∙ sym (total-put w.rule i r w.rules n new);
  }

-- The rules are those made so far.
abbrev pub Below : ℕ → WifiContext → Type 0
Below k w = (i : ℕ) → includes w.rules i ≡ true → i < k

add_rule-Below : (i : ℕ) (w : WifiContext) → Below i w → Below (suc i) (add_rule i w)
unfolding add_rule includes
add_rule-Below i w h j = λ there. ground (arith, h j, there)

length-add_rule : (i : ℕ) (w : WifiContext) → length (add_rule i w).rules ≤ suc (length w.rules)
unfolding add_rule
length-add_rule i w = ground arith

module _ (decode : String → Option String) (next_int : String → Option ℤ) (s : SmartContext) where
  pub add_rules-InStep :
      (next : ℕ) (ls : List String) (w : WifiContext)
      → InStep w s
      → Below next w
      → length w.rules + length ls < 2147483648
      → InStep (add_rules_from_reader decode next_int next ls w) s
  unfolding add_rules_from_reader
  add_rules-InStep next [] w x below room = x
  add_rules-InStep next (l ∷ ls) w x below room =
      elim (Option-cases (read_rule decode next_int l)) [
        | inl e ↦
            rw (add_rules_from_reader, e) (add_rules-InStep next ls w x below (omega (arith, room)))
        | inr (r, e) ↦
            let made : WifiContext = record w { rule = put w.rule next r } in
            let new : includes w.rules next ≡ false = ground (arith, below next) in
            let y : InStep made s = InStep-made w s x next r new in
            rw (add_rules_from_reader, e)
              (add_rules-InStep (suc next) ls (add_rule next made)
                (add_rule-InStep made s y next (omega (arith, room)))
                (add_rule-Below next made below) (omega (arith, room, length-add_rule next made)))
      ]
