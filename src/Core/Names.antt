-- ===== src/Core/Names.antt =====
-- crates/lr-core/src/names.rs: names that become components of paths. A name is the list of its
-- characters, each as its number; what a refusal says is left out.
pub mod Grammar
use linuxreflect.Base.{
  ℕ, ◌+◌, ◌≤◌, ◌<◌, ◌≡◌, refl, Bool, true, false, not, ◌&&◌, ◌||◌, Option, none, some, is_some,
  List, [], ◌∷◌, All, ltb, leb, find, ◌==◌, if◌then◌else◌, arith, Bool-cases, inl, inr,
}
use linuxreflect.Base.Result.{Result, ok, err, unsupported, refuse, ◌>>=◌, ◌>>◌}

abbrev pub max_name_len : ℕ
max_name_len = 64

pub data NameKind : Type 0 where
  set job : NameKind

-- `char::len_utf8`
abbrev pub len_utf8 : ℕ → ℕ
len_utf8 c = if ltb c 128 then 1 else if ltb c 2048 then 2 else if ltb c 65536 then 3 else 4

-- `str::len`
abbrev pub str_len : List ℕ → ℕ
str_len [] = 0
str_len (c ∷ cs) = len_utf8 c + str_len cs

abbrev pub is_ascii_alphanumeric : ℕ → Bool
is_ascii_alphanumeric c = leb 48 c && leb c 57 || leb 65 c && leb c 90 || leb 97 c && leb c 122

abbrev pub is_allowed : ℕ → Bool
is_allowed c = is_ascii_alphanumeric c || (c == 46 || c == 95 || c == 45)

unfoldable pub validate_name : NameKind → List ℕ → Result (Unit {0})
validate_name kind [] = err unsupported
validate_name kind (first ∷ rest) = do
  refuse (ltb max_name_len (str_len (first ∷ rest))) unsupported
  refuse (not (is_ascii_alphanumeric first)) unsupported
  refuse (is_some (find (λ c. not (is_allowed c)) (first ∷ rest))) unsupported

abbrev pub validate_set_name : List ℕ → Result (Unit {0})
validate_set_name name = validate_name set name

abbrev pub validate_job_name : List ℕ → Result (Unit {0})
validate_job_name name = validate_name job name
