-- ===== src/Examples/Publishing.antt =====
-- Publication on a server that carries out every rename and loses each answer.
use linuxreflect.Base.{
  ◌≡◌, ◌≢◌, ◌⊎◌, inl, inr, refl, sym, ap, subst, ◌∙◌, true, false, Option, none, some, [], ◌∷◌,
  eq_bytes, eq_bytes_refl, if◌then◌else◌, Option-cases,
}
use linuxreflect.Base.Assoc.{eq_bytes-cases}
use linuxreflect.Base.Result.{network_timeout}
use linuxreflect.Format.Wire.{Bytes}
use linuxreflect.Store.Remote.{Fault, replied, failed, RemoteOps, size_of, Kept, Moved, IsRemote}
use linuxreflect.Store.Publish.{publish_new_with}
use linuxreflect.Store.Publish.Fresh.{Outcome, publish_new_with-Outcome}

abbrev Server : Type 0
Server = Bytes → Option Bytes

abbrev lost : Fault
lost = record { error = network_timeout; is_transient = true }

abbrev moved : Server → Bytes → Bytes → Bytes → Server
moved s from to content path =
    if eq_bytes path to then some content else if eq_bytes path from then none else s path

abbrev after_rename : Server → Bytes → Bytes → Server
after_rename s from to = elim (s to) [
  | some there ↦ s
  | none ↦ elim (s from) [ none ↦ s | some content ↦ moved s from to content ]
]

abbrev erased : Server → Bytes → Server
erased s path other = if eq_bytes other path then none else s other

abbrev losing : RemoteOps Server
losing = record {
  size = λ path s. (replied (size_of (s path)), s);
  sync = λ path s. (replied true, s);
  rename = λ from to s. (failed lost, after_rename s from to);
  rename_over = λ from to s. (replied false, s);
  remove = λ path s. (replied tt, erased s path);
}

abbrev holds : Server → Bytes → Option Bytes
holds s path = s path

moved-Moved :
    (s : Server) (from to content : Bytes)
    → s to ≡ none
    → s from ≡ some content
    → Moved holds from to s (moved s from to content)
moved-Moved s from to content free there = elim (eq_bytes-cases from to) [
  | inl (e, same) ↦ let clash = sym free ∙ sym (ap s same) ∙ there in absurd (cc)
  | inr (e, d) ↦ (
    rw (eq_bytes_refl to) (sym there),
    rw (e, eq_bytes_refl from) refl,
    λ path f t. elim (eq_bytes-cases path to) [
      | inl (g, p) ↦ absurd (t p)
      | inr (g, p) ↦ elim (eq_bytes-cases path from) [
        | inl (h, q) ↦ absurd (f q)
        | inr (h, q) ↦ rw (g, h) refl
      ]
    ],
  )
]

after-moved :
    (s : Server) (from to content : Bytes)
    → s to ≡ none
    → s from ≡ some content
    → after_rename s from to ≡ moved s from to content
after-moved s from to content free there = rw (free, there, after_rename) refl

renames :
    (from to : Bytes) (s : Server)
    → ((holds s to ≡ none) × Moved holds from to s (after_rename s from to))
      ⊎ (Kept holds s (after_rename s from to) × (failed lost ≢ replied tt))
renames from to s = elim (Option-cases (s to)) [
  | inr (there, e) ↦ inr ((λ path. rw (e, after_rename) refl), λ k. cc)
  | inl e ↦ elim (Option-cases (s from)) [
    | inl f ↦ inr ((λ path. rw (e, f, after_rename) refl), λ k. cc)
    | inr (content, f) ↦ inl (
      e,
      subst (λ t. Moved holds from to s t) (sym (after-moved s from to content e f))
          (moved-Moved s from to content e f),
    )
  ]
]

removes : (path : Bytes) (s : Server) (other : Bytes) → other ≢ path → erased s path other ≡ s other
removes path s other d = elim (eq_bytes-cases other path) [
  | inl (e, p) ↦ absurd (d p)
  | inr (e, p) ↦ rw e refl
]

losing-IsRemote : IsRemote losing holds
losing-IsRemote = record {
  size_keeps = λ path s other. refl;
  size_tells = λ path s found e. cc;
  sync_keeps = λ path s other. refl;
  rename_moves = renames;
  rename_over_moves = λ from to s. inr (λ path. refl, λ k. cc);
  remove_removes = removes;
}

abbrev part : Bytes
part = 1 ∷ []

abbrev image : Bytes
image = 2 ∷ []

abbrev uploaded : Server
uploaded path = if eq_bytes path part then some (7 ∷ 8 ∷ []) else none

publish_new_with-Outcome_example :
    Outcome holds part image
      (7 ∷ 8 ∷ [])
      (holds uploaded image)
      (publish_new_with losing part image 3 uploaded)
unfolding eq_bytes
publish_new_with-Outcome_example =
    publish_new_with-Outcome losing holds losing-IsRemote part image (7 ∷ 8 ∷ []) 3 uploaded refl
