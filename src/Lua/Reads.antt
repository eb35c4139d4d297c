-- ===== src/Lua/Reads.antt =====
-- What the access functions of jni/lua/lapi.c give at an index that names a value.
use sctx.Lua.Access.{
  Conversion, block, is_string_value, is_table_value, is_string, is_table, to_userdata, to_string,
}
use sctx.Lua.Heap.{read_block}
use sctx.Lua.Index.{index2adr, value_at}
use sctx.Lua.State.{Value, string, userdata, Block, State, ok}
use sctx.Prelude.{ℕ, ℤ, String, ◌≡◌, some, arith}

-- The index names the value.
abbrev pub Names : State → ℤ → Value → Type 0
Names s idx v = value_at s (index2adr s.stack idx) ≡ some v

module _ (s : State) (idx : ℤ) where
  pub to_userdata-block : (u : ℕ) → Names s idx (userdata u) → to_userdata idx s ≡ ok (block u) s
  unfolding to_userdata
  to_userdata-block u at = ground arith

  pub is_string-value : (v : Value) → Names s idx v → is_string idx s ≡ ok (is_string_value v) s
  unfolding is_string
  is_string-value v at = ground arith

  pub is_table-value : (v : Value) → Names s idx v → is_table idx s ≡ ok (is_table_value v) s
  unfolding is_table
  is_table-value v at = ground arith

  pub to_string-text :
      (c : Conversion) (k : String) → Names s idx (string k) → to_string c idx s ≡ ok (some k) s
  unfolding to_string
  to_string-text c k at = ground arith

pub read_block-held :
    (u : ℕ) (b : Block) (s : State) → s.blocks u ≡ some b → read_block (block u) s ≡ ok b.content s
unfolding read_block
read_block-held u b s held = ground arith
