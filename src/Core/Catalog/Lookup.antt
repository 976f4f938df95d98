-- ===== src/Core/Catalog/Lookup.antt =====
-- What a catalog knows after a chain is inserted or replaced.
use linuxreflect.Base.{
  ℕ, ◌≡◌, ◌∙◌, ◌≢◌, inl, inr, some, List, [], ◌∷◌, arith, ◌==◌, All, All-map_of, Bool-cases,
}
use linuxreflect.Core.Catalog.{ChainRecord, Catalog, chain_of, chain, upsert_chains, upsert_chain}

-- No two chains have one identifier.
unfoldable pub DistinctChains : List ChainRecord → Type 0
DistinctChains [] = Unit
DistinctChains (c ∷ cs) = All (λ x. c.chain_id ≢ x.chain_id) cs × DistinctChains cs

chain_of-upsert_chains :
    (cs : List ChainRecord) (c : ChainRecord) → chain_of (upsert_chains c cs) c.chain_id ≡ some c
chain_of-upsert_chains [] c = ground arith
chain_of-upsert_chains (x ∷ xs) c = ground (arith, chain_of-upsert_chains xs c)

chain_of-upsert_chains_other :
    (cs : List ChainRecord) (c : ChainRecord) (id : ℕ)
    → c.chain_id ≢ id
    → chain_of (upsert_chains c cs) id ≡ chain_of cs id
chain_of-upsert_chains_other [] c id h = ground arith
chain_of-upsert_chains_other (x ∷ xs) c id h =
    ground (arith, chain_of-upsert_chains_other xs c id h)

All-upsert_chains :
    (n : ℕ) (cs : List ChainRecord) (c : ChainRecord)
    → n ≢ c.chain_id
    → All (λ x. n ≢ x.chain_id) cs
    → All (λ x. n ≢ x.chain_id) (upsert_chains c cs)
All-upsert_chains n [] c h k = (h, tt)
All-upsert_chains n (x ∷ xs) c h (p, k) =
    let rest = All-upsert_chains n xs c h k in
    elim (Bool-cases (x.chain_id == c.chain_id)) [ inl e ↦ rw e (h, k) | inr e ↦ rw e (p, rest) ]

DistinctChains-upsert_chains :
    (cs : List ChainRecord) (c : ChainRecord)
    → DistinctChains cs
    → DistinctChains (upsert_chains c cs)
unfolding DistinctChains
DistinctChains-upsert_chains [] c h = (tt, tt)
DistinctChains-upsert_chains (x ∷ xs) c (p, h) =
    let rest = DistinctChains-upsert_chains xs c h in
    elim (Bool-cases (x.chain_id == c.chain_id)) [
      | inl e ↦
          let same : x.chain_id ≡ c.chain_id = ground arith in
          rw e (All-map_of (λ y (d : x.chain_id ≢ y.chain_id). λ same'. d (same ∙ same')) xs p, h)
      | inr e ↦ rw e (All-upsert_chains x.chain_id xs c (ground arith) p, rest)
    ]

-- After `upsert_chain` the catalog finds the given record under its identifier, finds under every
-- other identifier what it found before, and holds no identifier twice if it held none twice.
pub upsert_chain_lem :
    (catalog : Catalog) (c : ChainRecord)
    → DistinctChains catalog.chains
    → (chain (upsert_chain catalog c) c.chain_id ≡ some c)
      × ((id : ℕ) → c.chain_id ≢ id → chain (upsert_chain catalog c) id ≡ chain catalog id)
      × DistinctChains (upsert_chain catalog c).chains
unfolding upsert_chain
upsert_chain_lem catalog c h = (
  chain_of-upsert_chains catalog.chains c,
  chain_of-upsert_chains_other catalog.chains c,
  DistinctChains-upsert_chains catalog.chains c h,
)
