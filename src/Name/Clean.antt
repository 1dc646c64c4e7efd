-- ===== src/Name/Clean.antt =====
-- The texts that name.rs leaves as they are, as an automaton over their characters.
use sukkula.Base.{
  ℕ, ◌+◌, ◌≡◌, refl, ap, Option, none, some, [], ◌∷◌, ◌++◌, ltb, ◌==◌, if◌then◌else◌, Str,
}
use sukkula.Limits.{max_combining_run}
use sukkula.Text.{Class, classify}
use sukkula.Name.{dot, is_separator}

-- What the text read so far ends with: nothing, a dot, a space, or a base with so many marks.
pub data Place : Type 0 where
  start on_dot on_space : Place
  on_base : ℕ → Place

dot_after : Place → Option Place
dot_after start = none
dot_after on_dot = some on_dot
dot_after on_space = some on_dot
dot_after (on_base k) = some on_dot

space_after : Place → Option Place
space_after start = none
space_after on_dot = some on_space
space_after on_space = none
space_after (on_base k) = some on_space

mark_after : Place → Option Place
mark_after (on_base k) = if ltb k max_combining_run then some (on_base (k + 1)) else none
mark_after start = none
mark_after on_dot = none
mark_after on_space = none

unfoldable pub step : Place → ℕ → Option Place
unfolding dot_after space_after mark_after
step p c = elim (classify c) [
  | Class.keep ↦ if is_separator c then none else if c == dot then dot_after p else some (on_base 0)
  | Class.space ↦ if c == b' ' then space_after p else none
  | Class.combining ↦ mark_after p
  | Class.newline ↦ none
  | Class.drop ↦ none
]

unfoldable pub walk : Option Place → Str → Option Place
unfolding step
walk none s = none
walk (some p) [] = some p
walk (some p) (c ∷ cs) = walk (step p c) cs

pub classify-dot : classify dot ≡ Class.keep
unfolding classify
classify-dot = refl

pub classify-blank : classify b' ' ≡ Class.space
unfolding classify
classify-blank = refl

pub walk-none : (s : Str) → walk none s ≡ none
unfolding walk
walk-none [] = refl
walk-none (c ∷ cs) = refl

pub walk-nil : (o : Option Place) → walk o [] ≡ o
unfolding walk
walk-nil none = refl
walk-nil (some p) = refl

pub walk-append : (o : Option Place) (s t : Str) → walk o (s ++ t) ≡ walk (walk o s) t
unfolding walk
walk-append none s t = refl
walk-append (some p) [] t = refl
walk-append (some p) (c ∷ cs) t = walk-append (step p c) cs t

-- What is accepted is accepted up to any point.
pub walk-prefix :
    (o : Option Place) (s t : Str) {q : Place}
    → walk o (s ++ t) ≡ some q
    → (p : Place) × (walk o s ≡ some p)
walk-prefix o s t {q} h = go (walk o s) refl
  where
    go : (r : Option Place) → walk o s ≡ r → (p : Place) × (walk o s ≡ some p)
    go none e = cc (h, walk-append o s t, walk-none t, ap (λ x. walk x t) e)
    go (some p) e = (p, e)
