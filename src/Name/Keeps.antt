-- ===== src/Name/Keeps.antt =====
-- The loop of `sanitize` in name.rs keeps a clean text as it is.
use sukkula.Base.{
  ℕ, ◌+◌, ◌≤◌, ◌≡◌, ◌≢◌, refl, ◌∙◌, true, false, Option, none, some, [], ◌∷◌, ◌++◌, arith, ltb,
  if◌then◌else◌, is_empty, Str, byte_len, ends_with, ends_with-append_cons, is_empty-append_cons,
  byte_len-append,
}
use mathlib.Core.List.{append-nil, append_assoc}
use sukkula.Text.{Class, classify}
use sukkula.Name.{dot, Scan, scan_turn, scan, scan_bytes}
use sukkula.Name.Clean.{Place, start, on_dot, on_space, on_base, step, walk, classify-dot}

-- How the loop's variables stand when the text read so far, a clean one, ends at a place.
abbrev Read : Scan → Place → Type 0
Read s start = (s.cleaned ≡ []) × (s.pending_space ≡ false)
Read s on_dot =
    (is_empty s.cleaned ≡ false) × (ends_with s.cleaned dot ≡ true) × (s.pending_space ≡ false)
Read s on_space = (is_empty s.cleaned ≡ false) × (s.pending_space ≡ true)
Read s (on_base k) =
    (is_empty s.cleaned ≡ false)
    × (ends_with s.cleaned dot ≡ false)
    × (s.combining_run ≡ k)
    × (s.pending_space ≡ false)

abbrev text_of : Scan → Str
text_of s = if s.pending_space then s.cleaned ++ b' ' ∷ [] else s.cleaned

-- What a turn of the loop has to show after a character that the automaton takes to `o`.
abbrev Turned : Scan → ℕ → Option Place → Type 0
Turned s c none = Unit
Turned s c (some q) =
    Read (scan_turn s c) q
    × (text_of (scan_turn s c) ≡ text_of s ++ c ∷ [])
    × ((scan_turn s c).cut ≡ s.cut)

module _ (s : Scan) (c : ℕ) where
  ruleset ends = (ends_with-append_cons, is_empty-append_cons)

  Turned-space : (p : Place) → classify c ≡ Class.space → Read s p → Turned s c (step p c)
  unfolding scan_turn step
  Turned-space start e r = ground arith
  Turned-space on_dot e r = ground arith
  Turned-space on_space e r = ground arith
  Turned-space (on_base k) e r = ground arith

  Turned-mark : (p : Place) → classify c ≡ Class.combining → Read s p → Turned s c (step p c)
  unfolding scan_turn step ends_with
  Turned-mark (on_base k) e r = ground (
    arith,
    classify-dot,
    is_empty-append_cons s.cleaned [] c,
    ends_with-append_cons s.cleaned [] c dot,
  )
  Turned-mark _ e r = ground arith

  Turned-keep : (p : Place) → classify c ≡ Class.keep → Read s p → Turned s c (step p c)
  unfolding scan_turn step ends_with
  Turned-keep on_space e r = ground (
    arith,
    append_assoc s.cleaned (b' ' ∷ []) (c ∷ []),
    is_empty-append_cons s.cleaned (c ∷ []) b' ',
    ends_with-append_cons s.cleaned (c ∷ []) b' ' dot,
  )
  Turned-keep _ e r =
      ground (arith, is_empty-append_cons s.cleaned [] c, ends_with-append_cons s.cleaned [] c dot)

  turned : (p : Place) → Read s p → Turned s c (step p c)
  turned p r = go (classify c) refl
    where
      go : (k : Class) → classify c ≡ k → Turned s c (step p c)
      go Class.keep e = Turned-keep p e r
      go Class.space e = Turned-space p e r
      go Class.combining e = Turned-mark p e r
      go Class.newline e = unfold step in rw (e, step) tt
      go Class.drop e = unfold step in rw (e, step) tt

Read-text_of : (s : Scan) (p : Place) → Read s p → p ≢ on_space → text_of s ≡ s.cleaned
Read-text_of s start r n = ground arith
Read-text_of s on_dot r n = ground arith
Read-text_of s on_space r n = absurd (n refl)
Read-text_of s (on_base k) r n = ground arith

byte_len-text_of : (s : Scan) → byte_len s.cleaned ≤ byte_len (text_of s)
byte_len-text_of s = ground (arith, byte_len-append s.cleaned (b' ' ∷ []))

-- A clean text goes through the loop unchanged, and does not end it early.
pub scan_keeps :
    (cs : Str) (s : Scan) (p q : Place)
    → Read s p
    → s.cut ≡ false
    → walk (some p) cs ≡ some q
    → q ≢ on_space
    → byte_len (text_of s) + byte_len cs ≤ scan_bytes
    → ((scan cs s).cleaned ≡ text_of s ++ cs) × ((scan cs s).cut ≡ false)
unfolding scan walk
scan_keeps [] s p q r u w n h =
    ground (arith, Read-text_of s p r (λ e. n (ground arith)), append-nil s.cleaned)
scan_keeps (c ∷ cs) s p q r u w n h =
    go (step p c) refl (turned s c p r) (scan_keeps cs (scan_turn s c))
  where
    longer : byte_len (text_of s ++ c ∷ []) + byte_len cs ≤ scan_bytes
    longer = omega (arith, byte_len-append (text_of s) (c ∷ []))

    go :
        (o : Option Place)
        → step p c ≡ o
        → Turned s c o
        → ((p' q : Place)
            → Read (scan_turn s c) p'
            → (scan_turn s c).cut ≡ false
            → walk (some p') cs ≡ some q
            → q ≢ on_space
            → byte_len (text_of (scan_turn s c)) + byte_len cs ≤ scan_bytes
            → ((scan cs (scan_turn s c)).cleaned ≡ text_of (scan_turn s c) ++ cs)
              × ((scan cs (scan_turn s c)).cut ≡ false))
        → ((scan (c ∷ cs) s).cleaned ≡ text_of s ++ c ∷ cs) × ((scan (c ∷ cs) s).cut ≡ false)
    go none e t ih = absurd (cc (rw (e, walk) at w))
    go (some p') e t ih =
        let (kept, uncut) = ih p' q t.0 (t.2 ∙ u) (rw (e, walk) at w) n (rw t.1 longer) in
        let inside : ltb scan_bytes (byte_len s.cleaned) ≡ false =
          ground (arith, byte_len-text_of s) in
        rw inside (kept ∙ rw t.1 (append_assoc (text_of s) (c ∷ []) cs), uncut)
