-- ===== src/Core/Catalog.antt =====
-- crates/lr-core/src/catalog.rs: the members and chains of a backup set.
-- An identifier is the number that its 16 bytes spell, most significant byte first: identifiers
-- are equal and ordered, also in their textual form, as these numbers are.
pub mod Lookup
pub mod Complete
use linuxreflect.Base.{
  ℕ, zero, suc, ◌-◌, ◌^◌, Bool, true, false, ◌&&◌, Option, none, some, List, [], ◌∷◌, ◌++◌, map,
  length, ltb, leb, ◌==◌, if◌then◌else◌, filter, find, sort_by, ◌||◌,
}
use linuxreflect.Core.ImageKind.{ImageKind}
use linuxreflect.Core.Consistency.{Consistency}

pub data MemberKind : Type 0 where
  full incremental differential : MemberKind

abbrev pub has_full_manifest : MemberKind → Bool
has_full_manifest incremental = false
has_full_manifest full = true
has_full_manifest differential = true

-- `kind == MemberKind::Full`
abbrev pub is_full : MemberKind → Bool
is_full full = true
is_full incremental = false
is_full differential = false

pub record MemberRecord : Type 0 where
  pub image_uuid : ℕ
  pub parent_uuid : ℕ
  pub kind : MemberKind
  pub seq_in_chain : ℕ
  pub image_kind : ImageKind
  pub consistency : Consistency
  pub created_unix : ℕ
  pub source_label : List ℕ
  pub size_bytes : ℕ
  pub file_name : List ℕ
  pub verified_unix : Option ℕ

pub record ChainRecord : Type 0 where
  pub chain_id : ℕ
  pub created_unix : ℕ
  pub source_label : List ℕ
  pub members : List MemberRecord

-- `iter().max_by_key(key)`: the last of the greatest elements.
abbrev pub max_by_key_from {ℓ} : {A : Type ℓ} → (A → ℕ) → A → List A → A
max_by_key_from key best [] = best
max_by_key_from key best (x ∷ xs) =
    let newer = max_by_key_from key x xs in
    let older = max_by_key_from key best xs in if leb (key best) (key x) then newer else older

abbrev pub max_by_key {ℓ} : {A : Type ℓ} → (A → ℕ) → List A → Option A
max_by_key key [] = none
max_by_key key (x ∷ xs) = some (max_by_key_from key x xs)

unfoldable pub latest_member : ChainRecord → Option MemberRecord
latest_member c = max_by_key (λ m. m.seq_in_chain) c.members

unfoldable pub member : ChainRecord → ℕ → Option MemberRecord
member c image_uuid = find (λ m. m.image_uuid == image_uuid) c.members

-- `u32::try_from(position).unwrap_or(u32::MAX)`
abbrev pub to_u32 : ℕ → ℕ
to_u32 position = if ltb position (2 ^ 32) then position else 2 ^ 32 - 1

-- The sorted sequence numbers are the positions from `position` on.
abbrev pub is_contiguous_from : ℕ → List ℕ → Bool
is_contiguous_from position [] = true
is_contiguous_from position (seq ∷ seqs) =
    (to_u32 position == seq) && is_contiguous_from (suc position) seqs

abbrev pub starts_at_zero : List ℕ → Bool
starts_at_zero [] = false
starts_at_zero (seq ∷ seqs) = seq == 0

abbrev pub is_some_full : Option MemberRecord → Bool
is_some_full none = false
is_some_full (some m) = is_full m.kind

unfoldable pub is_complete : ChainRecord → Bool
is_complete c =
    let seqs = sort_by leb (map (λ m. m.seq_in_chain) c.members) in
    starts_at_zero seqs
    && is_contiguous_from 0 seqs
    && is_some_full (find (λ m. m.seq_in_chain == 0) c.members)

unfoldable pub incremental_count : ChainRecord → ℕ
incremental_count c = length (filter (λ m. ltb 0 m.seq_in_chain) c.members)

pub record Catalog : Type 0 where
  pub version : ℕ
  pub set_id : ℕ
  pub set_name : List ℕ
  pub updated_unix : ℕ
  pub chains : List ChainRecord

abbrev pub new : ℕ → List ℕ → ℕ → Catalog
new set_id set_name updated_unix = record {
  version = 1;
  set_id = set_id;
  set_name = set_name;
  updated_unix = updated_unix;
  chains = [];
}

abbrev pub chain_of : List ChainRecord → ℕ → Option ChainRecord
chain_of chains chain_id = find (λ c. c.chain_id == chain_id) chains

abbrev pub chain : Catalog → ℕ → Option ChainRecord
chain catalog chain_id = chain_of catalog.chains chain_id

unfoldable pub latest_chain : Catalog → Option ChainRecord
latest_chain catalog = max_by_key (λ c. c.created_unix) catalog.chains

abbrev pub upsert_chains : ChainRecord → List ChainRecord → List ChainRecord
upsert_chains new_chain [] = new_chain ∷ []
upsert_chains new_chain (c ∷ cs) =
    let rest = upsert_chains new_chain cs in
    if c.chain_id == new_chain.chain_id then new_chain ∷ cs else c ∷ rest

unfoldable pub upsert_chain : Catalog → ChainRecord → Catalog
upsert_chain catalog new_chain = record catalog { chains = upsert_chains new_chain catalog.chains }

unfoldable pub chains_oldest_first : Catalog → List ChainRecord
chains_oldest_first catalog =
    sort_by
      (λ a b.
        ltb a.created_unix b.created_unix
        || (a.created_unix == b.created_unix && leb a.chain_id b.chain_id))
      catalog.chains
