-- ===== src/Store/Remote.antt =====
-- crates/lr-store/src/publish.rs: the remote operations that publication needs, over the state of the
-- server, which is a parameter. A failure is an error with what `is_transient` of sftp.rs says of it,
-- since its text and its kind of input and output are not modelled.
use linuxreflect.Base.{ℕ, Bool, Option, none, some, ◌≡◌, ◌≢◌, ◌⊎◌, length}
use linuxreflect.Base.Result.{Error}
use linuxreflect.Format.Wire.{Bytes}

pub record Fault : Type 0 where
  pub error : Error
  pub is_transient : Bool

pub data Reply (A : Type 0) : Type 0 where
  replied : A → Reply A
  failed : Fault → Reply A

abbrev pub Remote : Type 0 → Type 0 → Type 0
Remote S A = S → Reply A × S

infixl 5 ◌>>=◌ ◌>>◌
abbrev pub ◌>>=◌ : {S A B : Type 0} → Remote S A → (A → Remote S B) → Remote S B
◌>>=◌ m f s = elim (m s).0 [ replied a ↦ f a (m s).1 | failed e ↦ (failed e, (m s).1) ]

abbrev pub ◌>>◌ : {S A B : Type 0} → Remote S A → Remote S B → Remote S B
m >> k = m >>= λ _. k

abbrev pub pure : {S A : Type 0} → A → Remote S A
pure a s = (replied a, s)

abbrev pub fail : {S A : Type 0} → Fault → Remote S A
fail e s = (failed e, s)

pub record RemoteOps (S : Type 0) : Type 0 where
  pub size : Bytes → Remote S (Option ℕ)
  pub sync : Bytes → Remote S Bool
  pub rename : Bytes → Bytes → Remote S (Unit {0})
  pub rename_over : Bytes → Bytes → Remote S Bool
  pub remove : Bytes → Remote S (Unit {0})

abbrev pub size_of : Option Bytes → Option ℕ
size_of none = none
size_of (some content) = some (length content)

-- A rename left the server as it was.
abbrev pub Kept : {S : Type 0} → (S → Bytes → Option Bytes) → S → S → Type 0
Kept files s t = (path : Bytes) → files t path ≡ files s path

-- A rename moved the content of `from` to `to`, and touched no other file.
abbrev pub Moved : {S : Type 0} → (S → Bytes → Option Bytes) → Bytes → Bytes → S → S → Type 0
Moved files from to s t =
    (files t to ≡ files s from)
    × (files t from ≡ none)
    × ((path : Bytes) → path ≢ from → path ≢ to → files t path ≡ files s path)

-- What the code relies on, of the files of the server: looking and flushing change nothing; a size
-- that is answered is that of the file; a rename happens or not, never onto a file that is there, and
-- has happened when it is answered, but may also have happened when the answer is lost; one that
-- replaces has happened when `true` is answered, and not when `false` is.
pub record IsRemote {S : Type 0} (ops : RemoteOps S) (files : S → Bytes → Option Bytes)
    : Type 0 where
  pub size_keeps : (path : Bytes) (s : S) → Kept files s (ops.size path s).1
  pub size_tells :
      (path : Bytes) (s : S) (found : Option ℕ)
      → (ops.size path s).0 ≡ replied found
      → found ≡ size_of (files s path)
  pub sync_keeps : (path : Bytes) (s : S) → Kept files s (ops.sync path s).1
  pub rename_moves :
      (from to : Bytes) (s : S)
      → ((files s to ≡ none) × Moved files from to s (ops.rename from to s).1)
        ⊎ (Kept files s (ops.rename from to s).1 × ((ops.rename from to s).0 ≢ replied tt))
  pub rename_over_moves :
      (from to : Bytes) (s : S)
      → (Moved files from to s (ops.rename_over from to s).1
          × ((ops.rename_over from to s).0 ≢ replied Bool.false))
        ⊎ (Kept files s (ops.rename_over from to s).1
            × ((ops.rename_over from to s).0 ≢ replied Bool.true))
  pub remove_removes :
      (path : Bytes) (s : S) (other : Bytes)
      → other ≢ path
      → files (ops.remove path s).1 other ≡ files s other
