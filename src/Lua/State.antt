-- ===== src/Lua/State.antt =====
-- Values, tables, full userdata and the stack of one lua_State (jni/lua/lobject.h, lstate.h), the
-- Java references that the bridge owns, and the monad of C code that runs on it.
use sctx.Prelude.{
  ℕ, String, ℤ, pos, negsuc, Bool, true, false, Option, some, List, [], ◌∷◌, ◌==◌, str_eq,
  if◌then◌else◌,
}

-- The C functions of the bridge that become Lua functions; `other` is any other function.
pub data CFunction : Type 0 where
  object_index_fn object_index_return_fn class_index_fn gc_fn java_function_call_fn : CFunction
  bind_class_fn java_new_fn new_instance_fn load_lib_fn create_proxy_fn : CFunction
  other : ℕ → CFunction

-- TValue. A collectable value carries the identity of its object.
pub data Value : Type 0 where
  nil : Value
  boolean : Bool → Value
  light_userdata : ℕ → Value
  number : ℤ → Value
  string : String → Value
  table : ℕ → Value
  function : ℕ → CFunction → Value
  userdata : ℕ → Value
  thread : ℕ → Value

pub record Table : Type 0 where
  pub entries : List (Value × Value)
  pub metatable : Option ℕ

-- A full userdata: the pointer kept in its block, and its metatable.
pub record Block : Type 0 where
  pub content : ℕ
  pub metatable : Option ℕ

-- What the bridge holds of the Java side: the live global references with the object of each, the
-- number of local references it has made and not deleted, and of strings it has pinned.
pub record Jvm : Type 0 where
  pub globals : List (ℕ × ℕ)
  pub next_ref : ℕ
  pub locals : ℕ
  pub pins : ℕ

-- The function that runs: its environment table and its upvalues.
pub record Frame : Type 0 where
  pub env : ℕ
  pub upvalues : List Value

-- `stack` is the frame's part of the stack, the top first. `fresh` is the identity that the next
-- new object gets.
pub record State : Type 0 where
  pub stack : List Value
  pub registry : ℕ
  pub globals : ℕ
  pub frame : Option Frame
  pub tables : ℕ → Option Table
  pub blocks : ℕ → Option Block
  pub basic_metatables : ℕ → Option ℕ
  pub fresh : ℕ
  pub jvm : Jvm

-- `error`: a `longjmp` out of lua_error, with the message on top of the stack. `fault`: what C
-- leaves undefined.
pub data Run (A : Type 0) : Type 0 where
  ok : A → State → Run A
  error : State → Run A
  fault : Run A

abbrev pub Lua : Type 0 → Type 0
Lua A = State → Run A

abbrev pub pure : {A : Type 0} → A → Lua A
pure = ok

module _ {A B : Type 0} where
  abbrev pub and_then : Run A → (A → Lua B) → Run B
  and_then (ok a s) k = k a s
  and_then (error s) k = error s
  and_then fault k = fault

  infixl 5 ◌>>=◌ ◌>>◌
  abbrev pub ◌>>=◌ : Lua A → (A → Lua B) → Lua B
  m >>= k = λ s. and_then (m s) k

  abbrev pub ◌>>◌ : Lua A → Lua B → Lua B
  m >> n = m >>= λ _. n

abbrev pub nothing : Lua (Unit {0})
nothing = ok tt

-- `if (test) code`
abbrev pub when : Bool → Lua (Unit {0}) → Lua (Unit {0})
when true m = m
when false m = nothing

int_eq : ℤ → ℤ → Bool
int_eq (pos a) (pos b) = a == b
int_eq (negsuc a) (negsuc b) = a == b
int_eq _ _ = false

bool_eq : Bool → Bool → Bool
bool_eq true b = b
bool_eq false true = false
bool_eq false false = true

-- luaO_rawequalObj
unfoldable pub raw_equal : Value → Value → Bool
unfolding int_eq bool_eq
raw_equal nil nil = true
raw_equal (boolean a) (boolean b) = bool_eq a b
raw_equal (light_userdata a) (light_userdata b) = a == b
raw_equal (number a) (number b) = int_eq a b
raw_equal (string a) (string b) = str_eq a b
raw_equal (table a) (table b) = a == b
raw_equal (function a f) (function b g) = a == b
raw_equal (userdata a) (userdata b) = a == b
raw_equal (thread a) (thread b) = a == b
raw_equal _ _ = false

-- What luaH_get reads and luaH_set writes; a key that is absent reads as nil.
unfoldable pub table_get : List (Value × Value) → Value → Value
unfolding raw_equal
table_get [] k = nil
table_get ((j, v) ∷ m) k = if raw_equal j k then v else table_get m k

unfoldable pub table_set : List (Value × Value) → Value → Value → List (Value × Value)
unfolding raw_equal
table_set [] k v = (k, v) ∷ []
table_set ((j, w) ∷ m) k v = if raw_equal j k then (j, v) ∷ m else (j, w) ∷ table_set m k v

-- A heap of tables or of userdata, changed at one identity.
abbrev pub update {ℓ} : {A : Type ℓ} → (ℕ → Option A) → ℕ → A → ℕ → Option A
update h p c a = if a == p then some c else h a
