-- ===== src/Examples/Naming.antt =====
-- crates/lr-core/src/names.rs on some names.
use linuxreflect.Base.{ℕ, ◌≡◌, refl, List, [], ◌∷◌}
use linuxreflect.Base.Result.{ok, err, unsupported}
use linuxreflect.Core.Names.{job, validate_name, validate_set_name}
use linuxreflect.Core.Names.Grammar.{IsName, validate_name-IsName}

-- "v1.2"
abbrev versioned : List ℕ
versioned = 118 ∷ 49 ∷ 46 ∷ 50 ∷ []

versioned_accepted : validate_set_name versioned ≡ ok tt
unfolding validate_name
versioned_accepted = refl

parent_refused : validate_set_name (46 ∷ 46 ∷ []) ≡ err unsupported
unfolding validate_name
parent_refused = refl

slash_refused : validate_set_name (97 ∷ 47 ∷ 98 ∷ []) ≡ err unsupported
unfolding validate_name
slash_refused = refl

validate_name-IsName_example :
    (IsName versioned → validate_name job versioned ≡ ok tt)
    × (validate_name job versioned ≡ ok tt → IsName versioned)
validate_name-IsName_example = validate_name-IsName job versioned
