-- ===== src/Context/Smart.antt =====
-- SmartContext of src/org/sctx: the counts of the native contexts, and what it does when one is
-- entered or left.
pub mod Notices
pub mod Changed
pub mod Counted
pub mod Files
use Prim.Native.Nat.{◌%◌}
use Prim.Native.String.{◌++◌}
use mathlib.Core.List.{◌++◌ as ◌+++◌}
use sctx.Context.Engine.{Engine, update_system_symbol}
use sctx.Context.Engine.Update.{enough_fuel}
use sctx.Context.Text.{has_at, split_first}
use sctx.Prelude.{
  ℕ, ◌+◌, String, Bool, true, false, Option, none, some, List, [], ◌∷◌, ◌==◌, str_eq, if◌then◌else◌,
}
use sctx.Prelude.Options.{◌>>=◌, ◌>>◌}

-- `notices` are the names and values that were posted to the UI thread, `lua_codes` the codes that
-- were queued for the Lua runtime, both in order.
pub record SmartContext : Type 0 where
  pub native_context_ref : String → Option ℕ
  pub eng : Engine
  pub notices : List (String × Bool)
  pub lua_codes : List String

-- The sum of two values of type int, each by its number modulo 2 ^ 32.
unfoldable pub int_add : ℕ → ℕ → ℕ
int_add a b = (a + b) % 4294967296

-- The number of -1.
abbrev pub minus_one : ℕ
minus_one = 4294967295

unfoldable pub lua_code : String → String → Bool → String
lua_code ns sym v = ns ++ ("_" ++ ((if v then "enter" else "leave") ++ ("(\"" ++ (sym ++ "\")"))))

-- notifyContext, with none where it ends by an exception: on a name without a value, and on a name
-- without "$" that is no system name.
unfoldable pub notify_context : String → SmartContext → Option SmartContext
unfolding split_first lua_code
notify_context name s = do
  v ← s.eng.values name
  let posted : SmartContext = record s { notices = s.notices +++ ((name, v) ∷ []) }
  if has_at name then some posted else do
    p ← split_first b'$' name
    some (record posted { lua_codes = s.lua_codes +++ (lua_code p.0 p.1 v ∷ []) })

unfoldable pub notify_contexts : List String → SmartContext → Option SmartContext
unfolding notify_context
notify_contexts [] s = some s
notify_contexts (n ∷ ns) s = do s' ← notify_context n s; notify_contexts ns s'

-- The names of a list that has the latest first, from the first that was added.
unfoldable pub in_order : List String → List String
in_order [] = []
in_order (n ∷ ns) = in_order ns +++ (n ∷ [])

-- enterContext, and leaveContext with the value false.
unfoldable pub set_context : String → Bool → SmartContext → Option SmartContext
unfolding notify_contexts in_order
set_context name value s = do
  updated ← update_system_symbol has_at (enough_fuel s.eng name) s.eng name value
  notify_contexts (in_order updated.1) (record s { eng = updated.0 })

unfoldable pub get_native_context : String → SmartContext → Option SmartContext
unfolding set_context int_add
get_native_context name s =
    let put_ref : ℕ → String → Option ℕ =
      λ n j. if str_eq name j then some n else s.native_context_ref j in
    elim (s.native_context_ref name) [
      | none ↦ set_context name true (record s { native_context_ref = put_ref 1 })
      | some n ↦ some (record s { native_context_ref = put_ref (int_add n 1) })
    ]

unfoldable pub put_native_context : String → SmartContext → Option SmartContext
unfolding set_context int_add
put_native_context name s =
    let put_ref : Option ℕ → String → Option ℕ =
      λ o j. if str_eq name j then o else s.native_context_ref j in
    elim (s.native_context_ref name) [
      | none ↦ some s
      | some n ↦
          if n == 1
          then set_context name false (record s { native_context_ref = put_ref none })
          else some (record s { native_context_ref = put_ref (some (int_add n minus_one)) })
    ]
