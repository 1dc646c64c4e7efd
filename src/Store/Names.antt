-- ===== src/Store/Names.antt =====
-- store.rs on the names of its own tests.
use sukkula.Base.{◌≡◌, refl, true, false, ℕ, List, [], ◌∷◌, codes}
use sukkula.Hex.{encode}
use sukkula.Store.Apart.{check_name-apart}
use sukkula.Store.{check_name, temporary_name, is_temporary}

temporary_recognised :
    is_temporary (temporary_name (codes "settings.json") (0 ∷ 255 ∷ 1 ∷ 2 ∷ 3 ∷ 4 ∷ 5 ∷ 6 ∷ []))
    ≡ true
unfolding is_temporary temporary_name sukkula.Hex.encode sukkula.Base.rfind sukkula.Base.len_utf8
    sukkula.Base.as_bytes
temporary_recognised = refl

upper_case_refused : is_temporary (codes ".x.000000000000000A.tmp") ≡ false
unfolding is_temporary sukkula.Base.rfind sukkula.Base.len_utf8 sukkula.Base.as_bytes
upper_case_refused = refl

two_dots_refused : is_temporary (codes "..x.0000000000000000.tmp") ≡ false
unfolding is_temporary sukkula.Base.rfind sukkula.Base.len_utf8 sukkula.Base.as_bytes
two_dots_refused = refl

hidden_refused : check_name (codes ".hidden") ≡ false
unfolding check_name sukkula.Base.len_utf8 sukkula.Base.as_bytes
hidden_refused = refl

settings_accepted : check_name (codes "settings.json") ≡ true
unfolding check_name sukkula.Base.len_utf8 sukkula.Base.as_bytes
settings_accepted = refl

check_name-apart_example : is_temporary (codes "settings.json") ≡ false
check_name-apart_example = check_name-apart (codes "settings.json") settings_accepted
