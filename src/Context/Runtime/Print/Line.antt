-- ===== src/Context/Runtime/Print/Line.antt =====
-- The line that print logs.
use sctx.Context.Runtime.Print.{
  or_type, type_names, name_of_type, val_at, text_at, print_from, print, text_of_value, line, told,
  push_all,
}
use Prim.Native.String.{◌++◌}
use text.Mathlib.TextLemmas.{append-nil, append_assoc, nil-append}
use sctx.Lua.Access.{
  Conversion, is_userdata_value, type_at, string_at, type, type_tag, to_boolean, to_boolean_value,
  to_string,
}
use sctx.Lua.Index.{slot, index2adr, value, value_at}
use sctx.Lua.Reads.{Names}
use sctx.Lua.Stack.{get_top}
use sctx.Lua.State.{
  Value, nil, boolean, light_userdata, number, string, table, function, userdata, thread, State, ok,
  Lua,
}
use sctx.Prelude.{
  ℕ, zero, suc, ◌+◌, ◌≤◌, ◌<◌, leb, String, ℤ, pos, ◌≡◌, refl, sym, subst, ap, Bool, true, false,
  ◌&&◌, ◌||◌, not, Option, none, some, List, [], ◌∷◌, map, arith, length, get_elem?, set,
}

length-push_all : (vs under : List Value) → length (push_all vs under) ≡ length vs + length under
length-push_all [] under = omega arith
length-push_all (v ∷ vs) under = omega (arith, length-push_all vs (v ∷ under))

get_elem?-push_all :
    (vs under : List Value) (i k : ℕ)
    → i ≡ length vs + k
    → get_elem? (push_all vs under) i ≡ get_elem? under k
get_elem?-push_all [] under i k at = ap (get_elem? under) (omega (arith, at))
get_elem?-push_all (v ∷ vs) under i k at =
    get_elem?-push_all vs (v ∷ under) i (suc k) (omega (arith, at))

set-push_all :
    (vs under : List Value) (i k : ℕ) (w : Value)
    → i ≡ length vs + k
    → set (push_all vs under) i w ≡ push_all vs (set under k w)
set-push_all [] under i k w at = ap (λ j. set under j w) (omega (arith, at))
set-push_all (v ∷ vs) under i k w at = set-push_all vs (v ∷ under) i (suc k) w (omega (arith, at))

-- The index of the first of the values that are put on others.
first-slot :
    (v : Value) (vs under : List Value)
    → index2adr (push_all vs (v ∷ under)) (pos (suc (length under))) ≡ slot (length vs)
unfolding index2adr
first-slot v vs under = ground (arith, length-push_all vs (v ∷ under))

-- What is read at an index of a value on the stack.
module _ (s : State) (i : ℤ) (v : Value) (n : ℕ) (at : Names s i v)
    (address : index2adr s.stack i ≡ slot n) where
  type-slot : type i s ≡ ok (pos (type_tag v)) s
  unfolding type type_at
  type-slot = ground arith

  to_string-slot : (c : Conversion) → to_string c i s ≡ string_at c (slot n) v s
  unfolding to_string
  to_string-slot c = ground arith

  to_boolean-slot : to_boolean i s ≡ ok (to_boolean_value v) s
  unfolding to_boolean value
  to_boolean-slot = ground arith

above : (a b : ℕ) → b < a → leb a b ≡ false
above a b h = ground arith

within : (a b : ℕ) → a ≤ b → leb a b ≡ true
within a b h = ground arith

module _ (c : Conversion) (object_text : ℤ → Lua (Option String)) (shown : Value → Option String)
    (is_told : Value → Bool)
    (tells : (i : ℤ) (s : State) (v : Value)
      → Names s i v
      → is_told v ≡ true
      → object_text i s ≡ ok (shown v) s) where
  -- Every object among the values is one of those whose text is known.
  unfoldable pub all_told : List Value → Bool
  all_told [] = true
  all_told (v ∷ vs) = (not (is_userdata_value v) || is_told v) && all_told vs

  module _ (s : State) (vs under : List Value) where
    abbrev index : ℤ
    index = pos (suc (length under))

    abbrev Holds : Value → Type 0
    Holds v = s.stack ≡ push_all vs (v ∷ under)

    address : (v : Value) → Holds v → index2adr s.stack index ≡ slot (length vs)
    address v top = rw (top) (first-slot v vs under)

    names : (v : Value) → Holds v → Names s index v
    unfolding value_at
    names v top =
        rw (top, first-slot v vs under)
          (get_elem?-push_all vs (v ∷ under) (length vs) 0 (omega arith))

    type-value : (v : Value) → Holds v → type index s ≡ ok (pos (type_tag v)) s
    type-value v top = type-slot s index v (length vs) (names v top) (address v top)

    to_string-value :
        (v : Value) → Holds v → to_string c index s ≡ string_at c (slot (length vs)) v s
    to_string-value v top = to_string-slot s index v (length vs) (names v top) (address v top) c

    to_boolean-value : (v : Value) → Holds v → to_boolean index s ≡ ok (to_boolean_value v) s
    to_boolean-value v top = to_boolean-slot s index v (length vs) (names v top) (address v top)

    abbrev with_first : Value → State
    with_first v = record s { stack = push_all vs (v ∷ under) }

    unchanged : (v : Value) → Holds v → s ≡ with_first v
    unchanged v top = ap (λ xs. record s { stack = xs }) top

    -- The text at the index, by the type and the text of the value.
    text_at-val :
        (v : Value) (val : Option String) (t : State)
        → Holds v
        → val_at c object_text index (name_of_type (pos (type_tag v))) s ≡ ok val t
        → text_at c object_text index s ≡ ok (or_type (name_of_type (pos (type_tag v))) val) t
    unfolding text_at
    text_at-val v val t top reads = rw (type-value v top, reads) refl

    text_at-value :
        (v : Value)
        → Holds v
        → (not (is_userdata_value v) || is_told v) ≡ true
        → text_at c object_text index s ≡ ok (text_of_value c shown v) (with_first (told c v))
    unfolding val_at type_tag name_of_type type_names or_type is_userdata_value text_of_value told
        string_at to_boolean_value
    text_at-value nil top fine =
        text_at-val nil none (with_first nil) top
          (rw (to_string-value nil top, unchanged nil top) refl)
    text_at-value (boolean true) top fine =
        text_at-val (boolean true) (some "true") (with_first (boolean true)) top
          (rw (to_boolean-value (boolean true) top, unchanged (boolean true) top) refl)
    text_at-value (boolean false) top fine =
        text_at-val (boolean false) (some "false") (with_first (boolean false)) top
          (rw (to_boolean-value (boolean false) top, unchanged (boolean false) top) refl)
    text_at-value (light_userdata p) top fine =
        text_at-val (light_userdata p) (shown (light_userdata p)) (with_first (light_userdata p))
          top
          (rw
            (
              tells index s (light_userdata p) (names (light_userdata p) top) fine,
              unchanged (light_userdata p) top,
            )
            refl)
    text_at-value (number n) top fine =
        text_at-val (number n) (some (c.number2str n)) (with_first (string (c.number2str n))) top (
          rw
            (
              to_string-value (number n) top,
              top,
              set-push_all vs (number n ∷ under) (length vs) 0 (string (c.number2str n))
                  (omega arith),
            )
            refl)
    text_at-value (string k) top fine =
        text_at-val (string k) (some k) (with_first (string k)) top
          (rw (to_string-value (string k) top, unchanged (string k) top) refl)
    text_at-value (table t) top fine =
        text_at-val (table t) none (with_first (table t)) top
          (rw (to_string-value (table t) top, unchanged (table t) top) refl)
    text_at-value (function a f) top fine =
        text_at-val (function a f) none (with_first (function a f)) top
          (rw (to_string-value (function a f) top, unchanged (function a f) top) refl)
    text_at-value (userdata u) top fine =
        text_at-val (userdata u) (shown (userdata u)) (with_first (userdata u)) top (
          rw (tells index s (userdata u) (names (userdata u) top) fine, unchanged (userdata u) top)
            refl)
    text_at-value (thread t) top fine =
        text_at-val (thread t) none (with_first (thread t)) top
          (rw (to_string-value (thread t) top, unchanged (thread t) top) refl)

  ended :
      (under : List Value) (output : String) (s : State)
      → s.stack ≡ under
      → ok output s ≡ ok (output ++ "") (record s { stack = under })
  ended under output s top = rw (append-nil) (ap (λ xs. ok output (record s { stack = xs })) top)

  print_from-line :
      (vs under : List Value) (fuel : ℕ) (output : String) (s : State)
      → s.stack ≡ push_all vs under
      → length vs ≤ fuel
      → all_told vs ≡ true
      → print_from c object_text fuel (suc (length under)) output s
        ≡ ok (output ++ line c shown vs) (record s { stack = push_all (map (told c) vs) under })
  unfolding print_from get_top line all_told
  print_from-line [] under zero output s top enough fine = ended under output s top
  print_from-line [] under (suc fuel) output s top enough fine =
      rw (above (suc (length under)) (length s.stack) (omega (arith, ap length top)))
        (ended under output s top)
  print_from-line (v ∷ vs) under zero output s top enough fine = absurd (omega (arith, enough))
  print_from-line (v ∷ vs) under (suc fuel) output s top enough fine =
      rw
        (
          within (suc (length under)) (length s.stack)
              (omega (arith, ap length top, length-push_all vs (v ∷ under))),
          text_at-value s vs under v top (ground (arith, fine)),
          sym (append_assoc output (text_of_value c shown v) ("\t" ++ line c shown vs)),
          sym (append_assoc (output ++ text_of_value c shown v) "\t" (line c shown vs)),
        )
        (print_from-line vs (told c v ∷ under) fuel ((output ++ text_of_value c shown v) ++ "\t")
          (with_first s vs under (told c v)) refl (omega (arith, enough)) (ground (arith, fine)))

  -- Where object_text tells the objects of `is_told` without a change of the Lua state: on a frame with
  -- the proxy of the function first and any arguments, whose objects are all told, print logs each
  -- argument's text followed by a tab, in their order. The frame is then as before, but for numbers
  -- among the arguments, which are their texts.
  pub print-line :
      (args : List Value) (proxy : Value) (s : State)
      → s.stack ≡ push_all args (proxy ∷ [])
      → all_told args ≡ true
      → print c object_text s
        ≡ ok (line c shown args) (record s { stack = push_all (map (told c) args) (proxy ∷ []) })
  unfolding print
  print-line args proxy s top fine =
      subst
        (λ t.
          print_from c object_text (length s.stack) 2 "" s
          ≡ ok t (record s { stack = push_all (map (told c) args) (proxy ∷ []) }))
        (nil-append (line c shown args))
        (print_from-line args (proxy ∷ []) (length s.stack) "" s top
          (omega (arith, ap length top, length-push_all args (proxy ∷ []))) fine)
