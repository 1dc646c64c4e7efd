-- ===== src/Discovery/Pending.antt =====
-- What a call of mod.rs has still to tell the UI.
use sukkula.Base.{ℕ, ◌≡◌, refl, ap, Bool, true, false, List, [], ◌∷◌, ◌++◌, arith}
use sukkula.Peers.{Sighting}
use sukkula.Discovery.{Event, Todo, emissions, after_upsert, interleave}

-- The events among what is still to be done.
abbrev pub events_of : List Todo → List Event
events_of [] = []
events_of (Todo.emitting e ∷ ts) = e ∷ events_of ts
events_of (Todo.settling a f ∷ ts) = events_of ts
events_of (Todo.adding a f now ∷ ts) = events_of ts
events_of (Todo.adding_all lost now ∷ ts) = events_of ts

pub events_of-all : (es : List Event) → events_of (emissions es) ≡ es
events_of-all [] = refl
events_of-all (e ∷ es) = ap (λ l. e ∷ l) (events_of-all es)

pub events_of-emissions :
    (es : List Event) (t : Todo)
    → events_of (t ∷ []) ≡ []
    → events_of (emissions es ++ (t ∷ [])) ≡ es
events_of-emissions [] t h = h
events_of-emissions (e ∷ es) t h = ap (λ l. e ∷ l) (events_of-emissions es t h)

pub silent_after : (s : Sighting) (now : ℕ) (b : Bool) → events_of (after_upsert s now b ∷ []) ≡ []
silent_after s now true = refl
silent_after s now false = refl

events_of-silent : (xs ys : List Todo) → events_of xs ≡ [] → events_of (xs ++ ys) ≡ events_of ys
events_of-silent [] ys h = refl
events_of-silent (Todo.emitting e ∷ xs) ys h = ground (arith, h)
events_of-silent (Todo.settling a f ∷ xs) ys h = events_of-silent xs ys h
events_of-silent (Todo.adding a f now ∷ xs) ys h = events_of-silent xs ys h
events_of-silent (Todo.adding_all lost now ∷ xs) ys h = events_of-silent xs ys h

events_of-cons :
    (ys zs : List Todo)
    → events_of ys ≡ events_of zs
    → (t : Todo) → events_of (t ∷ ys) ≡ events_of (t ∷ zs)
events_of-cons ys zs h (Todo.emitting x) = ap (λ l. x ∷ l) h
events_of-cons ys zs h (Todo.settling a f) = h
events_of-cons ys zs h (Todo.adding a f now) = h
events_of-cons ys zs h (Todo.adding_all lost now) = h

-- Events are emitted in their order between work that emits none.
pub events_of-interleave :
    (bs : List Bool) (xs ys : List Todo)
    → events_of xs ≡ []
    → events_of (interleave bs xs ys) ≡ events_of ys
events_of-interleave [] xs ys h = events_of-silent xs ys h
events_of-interleave (true ∷ bs) [] ys h = refl
events_of-interleave (true ∷ bs) (Todo.emitting e ∷ xs) ys h = ground (arith, h)
events_of-interleave (true ∷ bs) (Todo.settling a f ∷ xs) ys h = events_of-interleave bs xs ys h
events_of-interleave (true ∷ bs) (Todo.adding a f now ∷ xs) ys h = events_of-interleave bs xs ys h
events_of-interleave (true ∷ bs) (Todo.adding_all lost now ∷ xs) ys h =
    events_of-interleave bs xs ys h
events_of-interleave (false ∷ bs) xs [] h = h
events_of-interleave (false ∷ bs) xs (y ∷ ys) h =
    events_of-cons (interleave bs xs ys) ys (events_of-interleave bs xs ys h) y
