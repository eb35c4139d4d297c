-- ===== src/Context/Text/Laws.antt =====
-- Which characters a qualified name has.
use Prim.Native.String.{String, ◌++◌}
use sctx.Context.Text.{has_char, has_at, has_dollar, qualify, split_first}
use sctx.Prelude.{ℕ, ◌≡◌, refl, true, false, ◌||◌, arith, some}
use text.Mathlib.TextLemmas.{cons-append, nil-append}

has_char-append : (k : ℕ) (s t : String) → has_char k (s ++ t) ≡ (has_char k s || has_char k t)
unfolding has_char
has_char-append k String.[] t = rw nil-append refl
has_char-append k (String.◌∷◌ c s) t = rw (cons-append, has_char-append k s t) (ground arith)

pub has_dollar-qualify : (nspc name : String) → has_dollar (qualify nspc name) ≡ true
unfolding qualify has_char
has_dollar-qualify nspc name =
    ground (arith, has_char-append b'$' nspc ("$" ++ name), has_char-append b'$' "$" name)

pub has_at-qualify :
    (nspc name : String)
    → has_at nspc ≡ false
    → has_at name ≡ false
    → has_at (qualify nspc name) ≡ false
unfolding qualify has_char
has_at-qualify nspc name h h' =
    ground (arith, has_char-append b'@' nspc ("$" ++ name), has_char-append b'@' "$" name)

split_first-append :
    (nspc name : String)
    → has_dollar nspc ≡ false
    → split_first b'$' (nspc ++ ("$" ++ name)) ≡ some (nspc, name)
unfolding split_first has_char
split_first-append String.[] name h = rw (nil-append, cons-append, nil-append) refl
split_first-append (String.◌∷◌ c s) name h =
    rw (cons-append) (ground (arith, split_first-append s name, h))

-- A qualified name splits into its namespace and its name.
pub split_first-qualify :
    (nspc name : String)
    → has_dollar nspc ≡ false
    → split_first b'$' (qualify nspc name) ≡ some (nspc, name)
unfolding qualify
split_first-qualify nspc name h = split_first-append nspc name h
