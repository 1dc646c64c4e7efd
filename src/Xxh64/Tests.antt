-- ===== src/Xxh64/Tests.antt =====
-- xxh64.rs on inputs of its own tests.
use sukkula.Base.{◌≡◌, refl, [], codes}
use sukkula.Hex.{encode}
use sukkula.Xxh64.{default, update, finish}

of_nothing : encode (finish (update default [])) ≡ codes "ef46db3751d8e999"
unfolding encode finish update
of_nothing = refl

of_abc : encode (finish (update default (codes "abc"))) ≡ codes "44bc2cf5ad770999"
unfolding encode finish update
of_abc = refl

in_pieces :
    finish (update (update default (codes "0123456789012345678901234567")) (codes "89abcdef0123"))
    ≡ finish (update default (codes "012345678901234567890123456789abcdef0123"))
unfolding finish update
in_pieces = refl
