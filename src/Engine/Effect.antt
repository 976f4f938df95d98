-- ===== src/Engine/Effect.antt =====
-- Code that acts on the outside: from the events so far, newest first, to a result and the events
-- after it. The first error ends it, as `?` does.
use linuxreflect.Base.{List, ◌≡◌, refl, ap, inl, inr}
use linuxreflect.Base.Result.{Error, Result, ok, err, Result-cases}

abbrev pub Effect : Type 0 → Type 0 → Type 0
Effect E A = List E → Result A × List E

infixl 5 ◌>>=◌ ◌>>◌
abbrev pub ◌>>=◌ : {E A B : Type 0} → Effect E A → (A → Effect E B) → Effect E B
◌>>=◌ m f trace = elim (m trace).0 [ ok a ↦ f a (m trace).1 | err e ↦ (err e, (m trace).1) ]

abbrev pub ◌>>◌ : {E A B : Type 0} → Effect E A → Effect E B → Effect E B
m >> k = m >>= λ _. k

abbrev pub pure : {E A : Type 0} → A → Effect E A
pure a trace = (ok a, trace)

abbrev pub lift : {E A : Type 0} → Result A → Effect E A
lift result trace = (result, trace)

-- What holds of the events before holds of those after, also where the code ends in an error.
abbrev pub Keeps : {E A : Type 0} → (List E → Type 0) → Effect E A → Type 0
Keeps I m = (trace : List _) → I trace → I (m trace).1

pub Keeps->>= :
    {E A B : Type 0} (I : List E → Type 0) (m : Effect E A) (f : A → Effect E B)
    → Keeps I m
    → ((a : A) → Keeps I (f a))
    → Keeps I (m >>= f)
Keeps->>= I m f h k trace i = elim (Result-cases (m trace).0) [
  | inl (a, e) ↦ rw (e, ◌>>=◌) (k a (m trace).1 (h trace i))
  | inr (x, e) ↦ rw (e, ◌>>=◌) (h trace i)
]

pub Keeps-lift :
    {E A B : Type 0} (I : List E → Type 0) (result : Result A) (f : A → Effect E B)
    → ((a : A) → result ≡ ok a → Keeps I (f a))
    → Keeps I (lift result >>= f)
Keeps-lift I (ok a) f h = h a refl
Keeps-lift I (err e) f h = λ trace i. i

-- A step whose result is known.
pub >>=_ok :
    {E A B : Type 0} (m : Effect E A) (f : A → Effect E B) (trace : List E) {a : A} {after : List E}
    → m trace ≡ (ok a, after)
    → (m >>= f) trace ≡ f a after
>>=_ok {A} m f trace h =
    ap (λ (r : Result A × List _). elim r.0 [ ok a ↦ f a r.1 | err e ↦ (err e, r.1) ]) h

pub >>=_err :
    {E A B : Type 0} (m : Effect E A) (f : A → Effect E B) (trace : List E) {e : Error}
    {after : List E}
    → m trace ≡ (err e, after)
    → (m >>= f) trace ≡ (err e, after)
>>=_err {A} m f trace h =
    ap (λ (r : Result A × List _). elim r.0 [ ok a ↦ f a r.1 | err e ↦ (err e, r.1) ]) h
