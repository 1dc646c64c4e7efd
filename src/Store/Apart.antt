-- ===== src/Store/Apart.antt =====
-- The names of stored and of temporary files of store.rs are never the same.
use sukkula.Base.{◌≡◌, refl, true, false, Option, none, some, Str, arith}
use sukkula.Store.{check_name, is_temporary, is_temporary_rest, strip_dot, is_absent}

has_no_dot : (name : Str) → check_name name ≡ true → is_absent (strip_dot name) ≡ true
unfolding check_name
has_no_dot name h = ground arith

-- No name that the store accepts is taken for a temporary file.
pub check_name-apart : (name : Str) → check_name name ≡ true → is_temporary name ≡ false
unfolding is_temporary
check_name-apart name h = go (strip_dot name) (has_no_dot name h)
  where
    go : (o : Option Str) → is_absent o ≡ true → is_temporary_rest o ≡ false
    go none e = refl
    go (some s) e = ground arith
