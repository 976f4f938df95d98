-- ===== src/Base/Assoc.antt =====
-- Maps with strings as keys, as association lists: what `HashMap` does, but for the order in which it
-- is iterated.
use mathlib.Core.Path.{◌≡◌, refl, sym, subst}
use mathlib.Core.Logic.{◌≢◌, ◌⊎◌, inl, inr}
use mathlib.Core.Bool.{true, false}
use mathlib.Core.List.{List, [], ◌∷◌}
use mathlib.Core.Option.{Option, none, some}
use Prim.Native.Nat.{ℕ}
use linuxreflect.Base.Tests.{if◌then◌else◌, Bool-cases}
use linuxreflect.Base.Lists.{All, eq_bytes, eq_bytes_refl, eq_bytes→eq}

abbrev pub Key : Type 0
Key = List ℕ

pub eq_bytes-cases :
    (a b : Key) → ((eq_bytes a b ≡ true) × (a ≡ b)) ⊎ ((eq_bytes a b ≡ false) × (a ≢ b))
eq_bytes-cases a b = elim (Bool-cases (eq_bytes a b)) [
  | inl e ↦ inl (e, eq_bytes→eq a b e)
  | inr e ↦
      inr (e, λ p. let t = eq_bytes_refl b in let u = subst (λ c. eq_bytes c b ≡ false) p e in cc)
]

module _ {V : Type 0} where
  -- `get`
  abbrev pub lookup : Key → List (Key × V) → Option V
  lookup k [] = none
  lookup k ((j, v) ∷ rest) = let later = lookup k rest in if eq_bytes j k then some v else later

  -- `insert`
  abbrev pub upsert : Key → V → List (Key × V) → List (Key × V)
  upsert k v [] = (k, v) ∷ []
  upsert k v ((j, w) ∷ rest) =
      let later = upsert k v rest in if eq_bytes j k then (k, v) ∷ rest else (j, w) ∷ later

  -- `remove`
  abbrev pub remove : Key → List (Key × V) → List (Key × V)
  remove k [] = []
  remove k ((j, v) ∷ rest) =
      let later = remove k rest in if eq_bytes j k then later else (j, v) ∷ later

module _ {V : Type 0} where
  pub lookup-upsert : (k : Key) (v : V) (es : List (Key × V)) → lookup k (upsert k v es) ≡ some v
  lookup-upsert k v [] = rw (eq_bytes_refl k) refl
  lookup-upsert k v ((j, w) ∷ rest) =
      let later = lookup-upsert k v rest in
      elim (Bool-cases (eq_bytes j k)) [
        | inl e ↦ rw (e, eq_bytes_refl k) refl
        | inr e ↦ rw (e, e) later
      ]

  pub lookup-upsert_other :
      (k i : Key) (v : V) (es : List (Key × V)) → k ≢ i → lookup i (upsert k v es) ≡ lookup i es
  lookup-upsert_other k i v [] h = elim (eq_bytes-cases k i) [
    | inl (e, p) ↦ absurd (h p)
    | inr (e, p) ↦ rw e refl
  ]
  lookup-upsert_other k i v ((j, w) ∷ rest) h =
      let later = lookup-upsert_other k i v rest h in
      elim (eq_bytes-cases k i) [
        | inl (e, p) ↦ absurd (h p)
        | inr (e, p) ↦ elim (eq_bytes-cases j k) [
          | inl (f, q) ↦
              let g : eq_bytes j i ≡ false = subst (λ c. eq_bytes c i ≡ false) (sym q) e in
              rw (f, e, g) refl
          | inr (f, q) ↦ rw (f, later) refl
        ]
      ]

  pub lookup-remove_other :
      (k i : Key) (es : List (Key × V)) → k ≢ i → lookup i (remove k es) ≡ lookup i es
  lookup-remove_other k i [] h = refl
  lookup-remove_other k i ((j, w) ∷ rest) h =
      let later = lookup-remove_other k i rest h in
      elim (eq_bytes-cases j k) [
        | inl (f, q) ↦ elim (eq_bytes-cases j i) [
          | inl (g, p) ↦ absurd (h (let c = p in subst (λ c. c ≡ i) q p))
          | inr (g, p) ↦ rw (f, g) later
        ]
        | inr (f, q) ↦ rw (f, later) refl
      ]

  pub All-upsert {κ} :
      (P : Key × V → Type κ) (k : Key) (v : V) (es : List (Key × V))
      → P (k, v)
      → All P es
      → All P (upsert k v es)
  All-upsert P k v [] h a = (h, tt)
  All-upsert P k v ((j, w) ∷ rest) h (p, a) =
      let later = All-upsert P k v rest h a in
      elim (Bool-cases (eq_bytes j k)) [ inl e ↦ rw e (h, a) | inr e ↦ rw e (p, later) ]

  pub All-lookup {κ} :
      (P : Key × V → Type κ) (k : Key) (v : V) (es : List (Key × V))
      → lookup k es ≡ some v
      → All P es
      → P (k, v)
  All-lookup P k v [] h a = absurd (cc)
  All-lookup P k v ((j, w) ∷ rest) h (p, a) = elim (eq_bytes-cases j k) [
    | inl (e, q) ↦
        let same : some w ≡ some v = rw e at h in
        let value : w ≡ v = cc in subst (λ c. P (c, v)) q (subst (λ c. P (j, c)) value p)
    | inr (e, q) ↦ All-lookup P k v rest (rw e at h) a
  ]

  -- Two entries of a list, whichever comes first, are related.
  abbrev pub Pairwise {κ} : (Key × V → Key × V → Type κ) → List (Key × V) → Type κ
  Pairwise R [] = Unit
  Pairwise R (x ∷ xs) = All (R x) xs × Pairwise R xs
