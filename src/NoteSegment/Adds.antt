-- ===== src/NoteSegment/Adds.antt =====
-- The writers of src/core_writer.rs that append to the note segment append the notes of `Specs`.
use mathlib.Core.Path.{subst}
use minidump2core.Prelude.{
  ℕ, ◌≡◌, refl, ap, sym, ◌∙◌, List, [], ◌∷◌, ◌++◌, length, All, Option, none, some, append_assoc,
  append-nil,
}
use minidump2core.Error.{Result, ok, ◌>>=◌, ok-injective, >>=-eq-ok}
use minidump2core.Notes.{nul_terminated, write_note, build_prstatus}
use minidump2core.Notes.Layout.{note_bytes, build_note_bytes}
use minidump2core.Notes.Parse.{parse-note_bytes}
use minidump2core.Elf.{core_name, linux_name, nt_prstatus, nt_fpregset, nt_prxfpreg}
use minidump2core.Model.Architecture.{Architecture}
use minidump2core.CpuContext.{RawContext}
use minidump2core.Regs.{to_pr_reg, to_fpregset, to_prxfpreg}
use minidump2core.NoteSegment.{
  Thread, add_note, or_else, is_some, add_optional, write_context_notes, write_thread_notes,
}
use minidump2core.NoteSegment.Specs.{
  NoteSpec, note_of, optional_note, context_notes, thread_notes, Fits, parse_notes,
}

-- The bytes of the notes.
unfoldable pub image : List NoteSpec → List ℕ
image [] = []
image (n ∷ ns) = note_bytes n.name n.type n.desc ++ image ns

pub parse-image : (ns : List NoteSpec) → All Fits ns → parse_notes (length ns) (image ns) ≡ (ns, [])
unfolding image
parse-image [] h = refl
parse-image (n ∷ ns) h =
    rw (parse-note_bytes n.name n.type n.desc (image ns) h.0.0 h.0.1 h.0.2, parse-image ns h.1) refl

image-append : (ms ns : List NoteSpec) → image (ms ++ ns) ≡ image ms ++ image ns
unfolding image
image-append [] ns = refl
image-append (m ∷ ms) ns =
    ap (λ t. note_bytes m.name m.type m.desc ++ t) (image-append ms ns)
    ∙ sym (append_assoc (note_bytes m.name m.type m.desc) (image ms) (image ns))

pub All-append : (ms ns : List NoteSpec) → All Fits (ms ++ ns) → All Fits ms × All Fits ns
All-append [] ns h = (tt, h)
All-append (m ∷ ms) ns h = let rest = All-append ms ns h.1 in ((h.0, rest.0), rest.1)

-- A writer that appends these notes to any vector.
unfoldable pub Adds : (List ℕ → Result (List ℕ)) → List NoteSpec → Type 0
Adds write ns = (out : List ℕ) → write out ≡ ok (out ++ image ns)

pub add_note-Adds :
    (name : List ℕ) (type : ℕ) (desc : List ℕ)
    → Fits (note_of name type desc)
    → Adds (add_note name type desc) (note_of name type desc ∷ [])
unfolding Adds add_note write_note image
add_note-Adds name type desc h out =
    rw (build_note_bytes name type desc h.0 h.2)
      (ap (λ t. ok (out ++ t)) (sym (append-nil (note_bytes (nul_terminated name) type desc))))

pub Adds-seq :
    (f g : List ℕ → Result (List ℕ)) (ms ns : List NoteSpec)
    → Adds f ms
    → Adds g ns
    → Adds (λ out. f out >>= g) (ms ++ ns)
unfolding Adds
Adds-seq f g ms ns hf hg out =
    rw (hf out, hg (out ++ image ms))
      (ap ok
        (append_assoc out (image ms) (image ns) ∙ ap (λ t. out ++ t) (sym (image-append ms ns))))

pub Adds-nothing : Adds ok []
unfolding Adds image
Adds-nothing out = ap ok (sym (append-nil out))

add_optional-Adds :
    (name : List ℕ) (type : ℕ) (desc : Option (List ℕ))
    → All Fits (optional_note name type desc)
    → Adds (add_optional name type desc) (optional_note name type desc)
unfolding add_optional
add_optional-Adds name type none h = Adds-nothing
add_optional-Adds name type (some desc) h = add_note-Adds name type desc h.0

-- The notes of a thread whose registers are known.
known_notes-Adds :
    (arch : Architecture) (tid signal : ℕ) (context : RawContext) (pr_reg : List ℕ)
    (ns : List NoteSpec)
    → to_pr_reg arch context ≡ ok pr_reg
    → context_notes arch tid signal context ≡ ok ns
    → All Fits ns
    → Adds (write_context_notes arch tid signal context) ns
unfolding write_context_notes context_notes Adds
known_notes-Adds arch tid signal context pr_reg ns known e h out =
    let fp = to_fpregset arch context in
    let status =
      note_of core_name nt_prstatus (build_prstatus arch tid signal pr_reg (is_some fp)) in
    let floats = optional_note core_name nt_fpregset fp in
    let extended = optional_note linux_name nt_prxfpreg (to_prxfpreg arch context) in
    let same : status ∷ (floats ++ extended) ≡ ns = ok-injective (sym (rw known refl) ∙ e) in
    let fits = subst (All Fits) (sym same) h in
    let parts = All-append floats extended fits.1 in
    rw (known, ← same)
      (Adds-seq (add_note core_name nt_prstatus status.desc)
        (λ o.
          add_optional core_name nt_fpregset fp o
          >>= add_optional linux_name nt_prxfpreg (to_prxfpreg arch context))
        (status ∷ []) (floats ++ extended) (add_note-Adds core_name nt_prstatus status.desc fits.0)
        (Adds-seq _ _ floats extended (add_optional-Adds core_name nt_fpregset fp parts.0)
          (add_optional-Adds linux_name nt_prxfpreg (to_prxfpreg arch context) parts.1))
        out)

write_context-Adds :
    (arch : Architecture) (tid signal : ℕ) (context : RawContext) (ns : List NoteSpec)
    → context_notes arch tid signal context ≡ ok ns
    → All Fits ns
    → Adds (write_context_notes arch tid signal context) ns
unfolding context_notes
write_context-Adds arch tid signal context ns e h =
    let known = >>=-eq-ok (to_pr_reg arch context) _ e in
    known_notes-Adds arch tid signal context known.0 ns known.1 e h

pub write_thread-Adds :
    (arch : Architecture) (t : Thread) (signal : ℕ) (override : Option RawContext)
    (ns : List NoteSpec)
    → thread_notes arch t.tid signal (or_else override t.context) ≡ ok ns
    → All Fits ns
    → Adds (write_thread_notes arch t signal override) ns
unfolding write_thread_notes
write_thread-Adds arch t signal override ns e h = chosen (or_else override t.context) e
  where
    chosen :
        (context : Option RawContext)
        → thread_notes arch t.tid signal context ≡ ok ns
        → Adds
            (λ out. elim context [
              | none ↦ ok out
              | some c ↦ write_context_notes arch t.tid signal c out
            ])
            ns
    chosen none d = rw (← ok-injective d) Adds-nothing
    chosen (some c) d = write_context-Adds arch t.tid signal c ns d h
