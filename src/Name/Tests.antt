-- ===== src/Name/Tests.antt =====
-- name.rs on the inputs of its own tests, and the theorems about it at concrete names.
use sukkula.Base.{◌≡◌, ◌↔◌, ◌++◌, refl, false, some, [], ◌∷◌, Str, is_empty, codes}
use sukkula.Name.{dot, sanitize, split_extension, shorten, fallback_name, IsSafe}
use sukkula.Name.Numbered.{numbered, numbered-IsSafe}
use sukkula.Name.Promises.{IsSafeName, sanitize-IsSafeName, IsSafe-iff, shorten_keeps_extension}
use sukkula.Name.Safe.{IsSafeForm, sanitize_idempotent}

traversal : sanitize (codes "../../.bashrc") ≡ codes "bashrc"
unfolding sanitize sukkula.Text.classify sukkula.Base.len_utf8
traversal = refl

backslashes : sanitize (codes "C:\\Windows\\evil.dll") ≡ codes "evil.dll"
unfolding sanitize sukkula.Text.classify sukkula.Base.len_utf8
backslashes = refl

nothing_left : sanitize (codes "dir/") ≡ fallback_name
unfolding sanitize sukkula.Text.classify sukkula.Base.len_utf8
nothing_left = refl

spaced : sanitize (codes "  sp  aced. . ") ≡ codes "sp aced"
unfolding sanitize sukkula.Text.classify sukkula.Base.len_utf8
spaced = refl

abbrev photo : Str
photo = codes "photo.jpg"

photo-IsSafe : IsSafe photo
unfolding sanitize sukkula.Text.classify sukkula.Base.len_utf8
photo-IsSafe = refl

third_photo : numbered photo 3 ≡ codes "photo (3).jpg"
unfolding numbered sukkula.Text.classify sukkula.Base.len_utf8 sukkula.Base.trim_end_matches
third_photo = refl

photo_split : split_extension photo ≡ (codes "photo", some (codes "jpg"))
unfolding split_extension sukkula.Base.len_utf8
photo_split = refl

sanitize-IsSafeName_example : IsSafeName (sanitize (codes "../../.bashrc"))
sanitize-IsSafeName_example = sanitize-IsSafeName (codes "../../.bashrc")

sanitize_idempotent_example : sanitize (sanitize (codes "..\\.x. ")) ≡ sanitize (codes "..\\.x. ")
sanitize_idempotent_example = sanitize_idempotent (codes "..\\.x. ")

IsSafe-iff_example : IsSafe photo ↔ IsSafeForm photo
IsSafe-iff_example = IsSafe-iff photo

numbered-IsSafe_example : IsSafe (numbered photo 3)
numbered-IsSafe_example = numbered-IsSafe photo 3 photo-IsSafe

shorten_keeps_extension_example :
    (stem : Str) × (shorten photo ≡ stem ++ dot ∷ codes "jpg") × (is_empty stem ≡ false)
shorten_keeps_extension_example =
    shorten_keeps_extension photo ((IsSafe-iff photo).0 photo-IsSafe).accepted photo_split
