-- ===== src/Core/Names/Grammar.antt =====
-- The grammar of crates/lr-core/src/names.rs: [A-Za-z0-9][A-Za-z0-9._-]{0,63}
use linuxreflect.Base.{
  ℕ, ◌≤◌, ◌<◌, ◌≡◌, refl, sym, subst, true, false, not, ◌&&◌, is_some, List, [], ◌∷◌, All, ltb, leb,
  find, ◌==◌, length, arith, Bool-cases, inl, inr,
}
use linuxreflect.Base.Result.{ok, unsupported, refuse_passed, refuse_last, refuse, ◌>>◌}
use linuxreflect.Core.Names.{
  NameKind, max_name_len, str_len, is_ascii_alphanumeric, is_allowed, validate_name,
}

pub data IsAlphanumeric (c : ℕ) : Type 0 where
  digit : 48 ≤ c → c ≤ 57 → IsAlphanumeric c
  upper : 65 ≤ c → c ≤ 90 → IsAlphanumeric c
  lower : 97 ≤ c → c ≤ 122 → IsAlphanumeric c

pub data IsNameChar (c : ℕ) : Type 0 where
  alphanumeric : IsAlphanumeric c → IsNameChar c
  dot : c ≡ 46 → IsNameChar c
  underscore : c ≡ 95 → IsNameChar c
  dash : c ≡ 45 → IsNameChar c

pub record IsName (name : List ℕ) : Type 0 where
  pub first : ℕ
  pub rest : List ℕ
  pub parts : name ≡ first ∷ rest
  pub starts : IsAlphanumeric first
  pub goes_on : All IsNameChar rest
  pub short : length rest ≤ 63

alphanumeric-true : (c : ℕ) → IsAlphanumeric c → is_ascii_alphanumeric c ≡ true
alphanumeric-true c (digit p q) = ground arith
alphanumeric-true c (upper p q) = ground arith
alphanumeric-true c (lower p q) = ground arith

true-IsAlphanumeric : (c : ℕ) → is_ascii_alphanumeric c ≡ true → IsAlphanumeric c
true-IsAlphanumeric c h = elim (Bool-cases (leb 48 c && leb c 57)) [
  | inl e ↦ digit (ground arith) (ground arith)
  | inr e ↦ elim (Bool-cases (leb 65 c && leb c 90)) [
    | inl f ↦ upper (ground arith) (ground arith)
    | inr f ↦ lower (ground arith) (ground arith)
  ]
]

allowed-true : (c : ℕ) → IsNameChar c → is_allowed c ≡ true
allowed-true c (alphanumeric a) = ground (arith, alphanumeric-true c a)
allowed-true c (dot e) = ground arith
allowed-true c (underscore e) = ground arith
allowed-true c (dash e) = ground arith

true-allowed : (c : ℕ) → is_allowed c ≡ true → IsNameChar c
true-allowed c h = elim (Bool-cases (is_ascii_alphanumeric c)) [
  | inl e ↦ alphanumeric (true-IsAlphanumeric c e)
  | inr e ↦ elim (Bool-cases (c == 46)) [
    | inl f ↦ dot (ground arith)
    | inr f ↦ elim (Bool-cases (c == 95)) [
      | inl g ↦ underscore (ground arith)
      | inr g ↦ dash (ground arith)
    ]
  ]
]

is_ascii : (c : ℕ) → IsNameChar c → c < 128
is_ascii c (alphanumeric (digit p q)) = omega arith
is_ascii c (alphanumeric (upper p q)) = omega arith
is_ascii c (alphanumeric (lower p q)) = omega arith
is_ascii c (dot e) = omega arith
is_ascii c (underscore e) = omega arith
is_ascii c (dash e) = omega arith

str_len-ascii : (cs : List ℕ) → All IsNameChar cs → str_len cs ≡ length cs
str_len-ascii [] h = refl
str_len-ascii (c ∷ cs) (p, h) =
    let ascii : ltb c 128 ≡ true = ground (arith, is_ascii c p) in
    let ih = str_len-ascii cs h in rw (ascii, ih) (omega arith)

none_refused :
    (cs : List ℕ) → All IsNameChar cs → is_some (find (λ c. not (is_allowed c)) cs) ≡ false
none_refused [] h = refl
none_refused (c ∷ cs) (p, h) = rw (allowed-true c p) (none_refused cs h)

All-allowed :
    (cs : List ℕ) → is_some (find (λ c. not (is_allowed c)) cs) ≡ false → All IsNameChar cs
All-allowed [] h = tt
All-allowed (c ∷ cs) h = elim (Bool-cases (is_allowed c)) [
  | inl e ↦ (true-allowed c e, All-allowed cs (rw e at h))
  | inr e ↦ let k = rw e at h in absurd (cc)
]

name-accepted : (kind : NameKind) (name : List ℕ) → IsName name → validate_name kind name ≡ ok tt
unfolding validate_name
name-accepted kind name n =
    let first_char : IsNameChar n.first = alphanumeric n.starts in
    let chars : All IsNameChar (n.first ∷ n.rest) = (first_char, n.goes_on) in
    let ascii = str_len-ascii (n.first ∷ n.rest) chars in
    let short : ltb max_name_len (str_len (n.first ∷ n.rest)) ≡ false =
      ground (arith, ascii, n.short) in
    subst (λ cs. validate_name kind cs ≡ ok tt) (sym n.parts)
      (rw (short, alphanumeric-true n.first n.starts) (rw (none_refused n.rest n.goes_on)))

accepted-IsName : (kind : NameKind) (name : List ℕ) → validate_name kind name ≡ ok tt → IsName name
unfolding validate_name
accepted-IsName kind [] h = absurd (cc)
accepted-IsName kind (first ∷ rest) h =
    let (short, h1) =
      refuse_passed (ltb max_name_len (str_len (first ∷ rest))) unsupported
        (refuse (not (is_ascii_alphanumeric first)) unsupported
          >> refuse (is_some (find (λ c. not (is_allowed c)) (first ∷ rest))) unsupported)
        tt h in
    let (starts, h2) =
      refuse_passed (not (is_ascii_alphanumeric first)) unsupported
        (refuse (is_some (find (λ c. not (is_allowed c)) (first ∷ rest))) unsupported) tt h1 in
    let none_bad =
      refuse_last (is_some (find (λ c. not (is_allowed c)) (first ∷ rest))) unsupported h2 in
    let chars = All-allowed (first ∷ rest) none_bad in
    let ascii = str_len-ascii (first ∷ rest) chars in
    record {
      first = first;
      rest = rest;
      parts = refl;
      starts = true-IsAlphanumeric first (ground (arith, starts));
      goes_on = chars.1;
      short = ground (arith, ascii, short);
    }

-- A name is accepted if and only if it is a letter or digit followed by at most 63 letters, digits,
-- dots, underscores and dashes, whatever kind of name it is.
pub validate_name-IsName :
    (kind : NameKind) (name : List ℕ)
    → (IsName name → validate_name kind name ≡ ok tt)
      × (validate_name kind name ≡ ok tt → IsName name)
validate_name-IsName kind name = (name-accepted kind name, accepted-IsName kind name)
