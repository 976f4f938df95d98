-- ===== src/Store/Publish/Fresh.antt =====
-- A published image is never replaced and never lost.
use linuxreflect.Base.{ℕ, ◌≡◌, ◌⊎◌, inl, inr, refl, sym, ◌∙◌, Bool, Option, none, some, length}
use linuxreflect.Format.Wire.{Bytes}
use linuxreflect.Store.Remote.{Reply, replied, Remote, RemoteOps, ◌>>=◌, pure, Kept, IsRemote}
use linuxreflect.Store.Publish.{
  Durability, renamed_with, rename_attempt, synced, size_or_vanished, publish_new_with,
}
use linuxreflect.Store.Publish.Safety.{Reply-cases, renamed_with-Leaves}

-- The new file stands at its name, which was free before, and no longer at the temporary one.
abbrev pub Published : Bytes → Option Bytes → Option Bytes → Option Bytes → Type 0
Published content before a b = (before ≡ none) × (a ≡ none) × (b ≡ some content)

-- Both names are as before, or the file is published.
abbrev pub Unharmed : Bytes → Option Bytes → Option Bytes → Option Bytes → Type 0
Unharmed content before a b = ((a ≡ some content) × (b ≡ before)) ⊎ Published content before a b

module _ {S : Type 0} (files : S → Bytes → Option Bytes) (from to content : Bytes)
    (before : Option Bytes) where
  abbrev pub UnharmedAt : S → Type 0
  UnharmedAt s = Unharmed content before (files s from) (files s to)

  abbrev pub PublishedAt : S → Type 0
  PublishedAt s = Published content before (files s from) (files s to)

  -- What publication answers and leaves.
  abbrev pub Outcome : {A : Type 0} → Reply A × S → Type 0
  Outcome {A} r = UnharmedAt r.1 × ((d : A) → r.0 ≡ replied d → PublishedAt r.1)

  -- A step that leaves the names unharmed, and what follows it.
  bind-Outcome :
      {A B : Type 0} (m : Remote S A) (f : A → Remote S B) (s : S)
      → UnharmedAt (m s).1
      → ((a : A) → (m s).0 ≡ replied a → Outcome (f a (m s).1))
      → Outcome ((m >>= f) s)
  bind-Outcome m f s h k = elim (Reply-cases (m s).0) [
    | inl (a, e) ↦ rw (e, ◌>>=◌) (k a e)
    | inr (fault, e) ↦ rw (e, ◌>>=◌) (h, λ d l. absurd (cc))
  ]

module _ {S : Type 0} (ops : RemoteOps S) (files : S → Bytes → Option Bytes)
    (law : IsRemote ops files) where
  synced-Kept : (path : Bytes) (s : S) → Kept files s (synced ops path s).1
  unfolding synced
  synced-Kept path s = elim (Reply-cases (ops.sync path s).0) [
    | inl (a, e) ↦ rw (e, ◌>>=◌) (law.sync_keeps path s)
    | inr (fault, e) ↦ rw (e, ◌>>=◌) (law.sync_keeps path s)
  ]

  size_or_vanished-Kept : (path : Bytes) (s : S) → Kept files s (size_or_vanished ops path s).1
  unfolding size_or_vanished
  size_or_vanished-Kept path s = elim (Reply-cases (ops.size path s).0) [
    | inr (fault, e) ↦ rw (e, ◌>>=◌) (law.size_keeps path s)
    | inl (none, e) ↦ rw (e, ◌>>=◌) (law.size_keeps path s)
    | inl (some size, e) ↦ rw (e, ◌>>=◌) (law.size_keeps path s)
  ]

module _ {S : Type 0} (ops : RemoteOps S) (files : S → Bytes → Option Bytes)
    (law : IsRemote ops files) (from to content : Bytes) (before : Option Bytes) where
  settle :
      (expected : ℕ) (b : Bytes)
      → Unharmed content before none (some b)
      → length b ≡ expected
      → Published content before none (some b)
  settle expected b (inl (e, f)) l = absurd (cc)
  settle expected b (inr h) l = h

  rename-Unharmed :
      (s : S)
      → UnharmedAt files from to content before s
      → UnharmedAt files from to content before (ops.rename from to s).1
        × ((ops.rename from to s).0 ≡ replied tt
            → PublishedAt files from to content before (ops.rename from to s).1)
  rename-Unharmed s h = elim (law.rename_moves from to s) [
    | inr (kept, lost) ↦ (rw (kept from, kept to) h, λ r. absurd (lost r))
    | inl (free, (moved, gone, others)) ↦ go h free moved gone
  ]
    where
      go :
          UnharmedAt files from to content before s
          → files s to ≡ none
          → files (ops.rename from to s).1 to ≡ files s from
          → files (ops.rename from to s).1 from ≡ none
          → UnharmedAt files from to content before (ops.rename from to s).1
            × ((ops.rename from to s).0 ≡ replied tt
                → PublishedAt files from to content before (ops.rename from to s).1)
      go (inl (e, f)) free moved gone =
          let done : PublishedAt files from to content before (ops.rename from to s).1 =
            (sym f ∙ free, gone, moved ∙ e) in
          (inr done, λ r. done)
      go (inr (b, e, f)) free moved gone = let clash = sym free ∙ f in absurd (cc)

  attempt-Unharmed :
      (s : S)
      → UnharmedAt files from to content before s
      → UnharmedAt files from to content before (rename_attempt ops from to s).1
        × ((b : Bool)
            → (rename_attempt ops from to s).0 ≡ replied b
            → PublishedAt files from to content before (rename_attempt ops from to s).1)
  attempt-Unharmed s h =
      let (kept, done) = rename-Unharmed s h in
      elim (Reply-cases (ops.rename from to s).0) [
        | inl (tt', e) ↦ rw (e, ◌>>=◌) (kept, λ b k. done e)
        | inr (fault, e) ↦ rw (e, ◌>>=◌) (kept, λ b k. absurd (cc))
      ]

  UnharmedAt-Kept :
      (s t : S)
      → Kept files s t
      → UnharmedAt files from to content before s
      → UnharmedAt files from to content before t
  UnharmedAt-Kept s t kept h = rw (kept from, kept to) h

  publish-Outcome :
      (attempts : ℕ) (s : S)
      → UnharmedAt files from to content before s
      → Outcome files from to content before (publish_new_with ops from to attempts s)
  unfolding publish_new_with
  publish-Outcome attempts s h =
      let loop =
        λ (expected : ℕ). renamed_with ops from to expected attempts (rename_attempt ops from to) in
      let then_rename = λ (durability : Durability) (expected : ℕ).
        loop expected >>= λ (done : Bool). pure durability in
      let then_size =
        λ (durability : Durability). size_or_vanished ops from >>= then_rename durability in
      bind-Outcome files from to content before (synced ops from) then_size s h1 (λ durability k1.
        bind-Outcome files from to content before (size_or_vanished ops from)
          (then_rename durability) s1 h2
          (λ expected k2.
            let (h3, done) =
              renamed_with-Leaves ops files law from to (Unharmed content before)
                (λ b. Published content before) expected (settle expected)
                (rename_attempt ops from to) attempt-Unharmed attempts s2 h2 in
            bind-Outcome files from to content before (loop expected) (λ b. pure durability) s2 h3
              (λ b k3. (h3, λ d l. done b k3))))
    where
      s1 : S
      s1 = (synced ops from s).1

      s2 : S
      s2 = (size_or_vanished ops from s1).1

      h1 : UnharmedAt files from to content before s1
      h1 = UnharmedAt-Kept s s1 (synced-Kept ops files law from s) h

      h2 : UnharmedAt files from to content before s2
      h2 = UnharmedAt-Kept s1 s2 (size_or_vanished-Kept ops files law from s1) h1

-- Whatever replies are lost and however often it tries: when a file is to be published under a name,
-- then afterwards either both names are as they were, or the name was free and holds the file, which
-- is gone from its temporary name; and when publication answers, it is published. So an image that
-- stands under the name is neither replaced nor removed, and the new file is never lost.
pub publish_new_with-Outcome :
    {S : Type 0} (ops : RemoteOps S) (files : S → Bytes → Option Bytes)
    → IsRemote ops files
    → (from to content : Bytes) (attempts : ℕ) (s : S) → files s from ≡ some content
    → Outcome files from to content (files s to) (publish_new_with ops from to attempts s)
publish_new_with-Outcome ops files law from to content attempts s e =
    publish-Outcome ops files law from to content (files s to) attempts s (inl (e, refl))
