-- ===== src/Smb/Actor/Handles.antt =====
-- Every handle that libsmb2 opens for the session is closed exactly once: a libsmb2 that keeps a
-- record of the handles that it opened and closed, and what the session leaves in it.
mod Calls
mod Copies
pub mod Session
use krystallos.Common.{ℕ, ◌+◌, List, [], ◌∷◌, ◌≡◌, Option, none, some, count, ℤ}
use krystallos.Smb.Libsmb2.{Libsmb2}

pub record Traced (C : Type 0) : Type 0 where
  pub inner : C
  pub opened : List ℕ
  pub closed : List ℕ

abbrev pub no_trace : {C : Type 0} → C → Traced C
no_trace c = record { inner = c; opened = []; closed = [] }

module _ {C : Type 0} where
  abbrev pub lift {ℓ} : {A : Type ℓ} → Traced C → A × C → A × Traced C
  lift t (a, c) = (a, record t { inner = c })

  abbrev pub note_open : Traced C → Option ℕ × C → Option ℕ × Traced C
  note_open t (none, c) = (none, record t { inner = c })
  note_open t (some h, c) = (some h, record t { inner = c; opened = h ∷ t.opened })

  abbrev pub note_close : Traced C → ℕ → ℤ × C → ℤ × Traced C
  note_close t h (rc, c) = (rc, record t { inner = c; closed = h ∷ t.closed })

  -- The same library, with the record kept.
  abbrev pub traced : Libsmb2 C → Libsmb2 (Traced C)
  traced f = record {
    opendir = λ t s. lift t (f.opendir t.inner s);
    closedir = λ t. record t { inner = f.closedir t.inner };
    stat = λ t s. lift t (f.stat t.inner s);
    fstat = λ t h. lift t (f.fstat t.inner h);
    mkdir = λ t s. lift t (f.mkdir t.inner s);
    unlink = λ t s. lift t (f.unlink t.inner s);
    rmdir = λ t s. lift t (f.rmdir t.inner s);
    rename = λ t s u. lift t (f.rename t.inner s u);
    open_path = λ t s flags. note_open t (f.open_path t.inner s flags);
    close = λ t h. note_close t h (f.close t.inner h);
    pread = λ t h n offset. lift t (f.pread t.inner h n offset);
    pwrite = λ t h bytes offset. lift t (f.pwrite t.inner h bytes offset);
    ftruncate = λ t h n. lift t (f.ftruncate t.inner h n);
    fsync = λ t h. lift t (f.fsync t.inner h);
    request_resume_key = λ t h. lift t (f.request_resume_key t.inner h);
    copychunk = λ t key h offset n. lift t (f.copychunk t.inner key h offset n);
    get_error = λ t. f.get_error t.inner;
    get_nterror = λ t. f.get_nterror t.inner;
    status_text = f.status_text;
  }

  -- The handles that were opened are those that were closed and those that are held, each as often.
  abbrev pub Held : List ℕ → Traced C → Type 0
  Held held t = (x : ℕ) → count x t.opened ≡ count x t.closed + count x held

  -- Nothing was opened or closed on the way.
  abbrev pub Same : Traced C → Traced C → Type 0
  Same t u = (u.opened ≡ t.opened) × (u.closed ≡ t.closed)

  abbrev pub Quiet {ℓ} : {A : Type ℓ} → Traced C → A × Traced C → Type 0
  Quiet t out = Same t out.1

  pub Held-Same : (held : List ℕ) (t u : Traced C) → Same t u → Held held t → Held held u
  Held-Same held t u s h = λ x. rw (s.0, s.1) (h x)
