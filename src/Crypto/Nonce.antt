-- ===== src/Crypto/Nonce.antt =====
-- crates/lr-crypto/src/nonce.rs: the 96-bit counter that numbers the nonces of one key.
use linuxreflect.Base.{
  ℕ, zero, suc, ◌+◌, ◌-◌, ◌^◌, ◌≤◌, ◌<◌, ◌≡◌, ◌≢◌, Bool-cases, inl, inr, refl, ap, List, [], ◌∷◌,
  arith, ltb, drop, reverse, length, All, if◌then◌else◌,
}
use mathlib.Core.List.{reverse-reverse}
use linuxreflect.Base.Result.{Result, ok, err, corrupt, ◌>>=◌}
use linuxreflect.Format.Wire.{Bytes, to_le_bytes, from_le_bytes}
use linuxreflect.Format.Wire.RoundTrip.{from-to_le_bytes}

pub record NonceSeq : Type 0 where
  pub counter : ℕ

abbrev pub max_counter : ℕ
max_counter = 2 ^ 96 - 1

abbrev pub new : NonceSeq
new = record { counter = 0 }

-- `to_be_bytes` of a `w`-byte integer.
abbrev pub to_be_bytes : ℕ → ℕ → Bytes
to_be_bytes w value = reverse (to_le_bytes w value)

-- The last 12 of the 16 bytes of the counter.
unfoldable pub next_nonce : NonceSeq → Result (Bytes × NonceSeq)
next_nonce s =
    if ltb max_counter s.counter
    then err corrupt
    else ok (drop 4 (to_be_bytes 16 s.counter), record { counter = s.counter + 1 })

low_bytes : (c : ℕ) → drop 4 (to_be_bytes 16 c) ≡ reverse (to_le_bytes 12 c)
unfolding to_le_bytes
low_bytes c = refl

-- The number that a nonce spells, and the nonces of `k` calls.
abbrev pub value_of : Bytes → ℕ
value_of nonce = from_le_bytes (reverse nonce)

unfoldable pub draw : ℕ → NonceSeq → Result (List Bytes × NonceSeq)
draw zero s = ok ([], s)
draw (suc k) s = do (nonce, s') ← next_nonce s; (rest, t) ← draw k s'; ok (nonce ∷ rest, t)

abbrev pub Distinct : List Bytes → Type 0
Distinct [] = Unit
Distinct (n ∷ ns) = All (λ m. n ≢ m) ns × Distinct ns

next_nonce_ok :
    (s : NonceSeq)
    → s.counter ≤ max_counter
    → next_nonce s ≡ ok (reverse (to_le_bytes 12 s.counter), record { counter = s.counter + 1 })
unfolding next_nonce
next_nonce_ok s h = ground (arith, low_bytes s.counter)

value_of-nonce : (c : ℕ) → c ≤ max_counter → value_of (reverse (to_le_bytes 12 c)) ≡ c
value_of-nonce c h = rw (reverse-reverse (to_le_bytes 12 c)) (from-to_le_bytes 12 c (omega arith))

later_nonces :
    (c : ℕ) (nonce : Bytes) (ns : List Bytes)
    → value_of nonce ≡ c
    → All (λ n. c + 1 ≤ value_of n) ns
    → All (λ n. c ≤ value_of n) ns × All (λ n. nonce ≢ n) ns
later_nonces c nonce [] h a = (tt, tt)
later_nonces c nonce (n ∷ ns) h (p, a) =
    let (above, differ) = later_nonces c nonce ns h a in
    ((omega arith, above), (λ e. omega (arith, ap value_of e), differ))

-- While the counter does not pass 2 ^ 96, the nonces of any number of calls exist, are pairwise
-- distinct and spell numbers from the counter on.
pub draw-Distinct :
    (k : ℕ) (s : NonceSeq)
    → s.counter + k ≤ 2 ^ 96
    → (ns : List Bytes) × (draw k s ≡ ok (ns, record { counter = s.counter + k }))
      × All (λ n. s.counter ≤ value_of n) ns
      × Distinct ns
unfolding draw
draw-Distinct zero s h = ([], ground arith, tt, tt)
draw-Distinct (suc k) s h =
    let s' : NonceSeq = record { counter = s.counter + 1 } in
    let nonce = reverse (to_le_bytes 12 s.counter) in
    let (ns, e, above, distinct) = draw-Distinct k s' (omega arith) in
    let v = value_of-nonce s.counter (omega arith) in
    let (above', differ) = later_nonces s.counter nonce ns v above in
    (
      nonce ∷ ns,
      rw (next_nonce_ok s (omega arith), e) (ground arith),
      (omega arith, above'),
      (differ, distinct),
    )

next_nonce_refused : (s : NonceSeq) → max_counter < s.counter → next_nonce s ≡ err corrupt
unfolding next_nonce
next_nonce_refused s h = ground arith

-- The counter does not wrap: calls of which the last would pass the last of the 2 ^ 96 values end in
-- an error, wherever the counter stands before them.
pub draw-exhausted :
    (k : ℕ) (s : NonceSeq) → 2 ^ 96 < s.counter + suc k → draw (suc k) s ≡ err corrupt
unfolding draw
draw-exhausted zero s h = rw (next_nonce_refused s (omega arith), ◌>>=◌) refl
draw-exhausted (suc k) s h = elim (Bool-cases (ltb max_counter s.counter)) [
  | inl e ↦ rw (next_nonce_refused s (ground arith), ◌>>=◌) refl
  | inr e ↦
      let fits : s.counter ≤ max_counter = ground arith in
      let rest = draw-exhausted k (record { counter = s.counter + 1 }) (omega arith) in
      rw (next_nonce_ok s fits, ◌>>=◌, rest) refl
]

length-nonce : (c : ℕ) → length (reverse (to_le_bytes 12 c)) ≡ 12
unfolding to_le_bytes
length-nonce c = refl

-- A call below the end of the counter.
pub next_nonce_lem :
    (s : NonceSeq)
    → s.counter ≤ max_counter
    → (nonce : Bytes) × (next_nonce s ≡ ok (nonce, record { counter = s.counter + 1 }))
      × (length nonce ≡ 12)
next_nonce_lem s h = (reverse (to_le_bytes 12 s.counter), next_nonce_ok s h, length-nonce s.counter)
