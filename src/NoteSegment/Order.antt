-- ===== src/NoteSegment/Order.antt =====
-- The order of the threads in the note segment of src/core_writer.rs.
use minidump2core.Prelude.{
  ℕ, ◌≡◌, ◌≢◌, inl, inr, refl, ap, sym, arith, List, [], ◌∷◌, All, true, false, Bool-cases, Option,
  none, some, ◌==◌, ==_iff,
}
use minidump2core.NoteSegment.{Thread, find_thread, found_thread, other_threads, ordered_threads}
use mathlib.Core.Path.{subst}
use mathlib.Core.List.{Perm, perm_middle}
use mathlib.Core.List.Perm

-- No two threads have the same id.
abbrev pub DistinctTids : List Thread → Type 0
DistinctTids [] = Unit
DistinctTids (t ∷ ts) = All (λ (u : Thread). u.tid ≢ t.tid) ts × DistinctTids ts

others_none : (ts : List Thread) → other_threads none ts ≡ ts
unfolding other_threads
others_none [] = refl
others_none (t ∷ ts) = ap (λ us. t ∷ us) (others_none ts)

others_absent :
    (tid : ℕ) (ts : List Thread)
    → All (λ (u : Thread). u.tid ≢ tid) ts
    → other_threads (some tid) ts ≡ ts
unfolding other_threads
others_absent tid [] h = refl
others_absent tid (t ∷ ts) h = ground (arith, others_absent tid ts h.1)

found_here :
    (tid : ℕ) (t : Thread) (ts : List Thread)
    → (t.tid == tid) ≡ true
    → found_thread (some tid) (t ∷ ts) ≡ t ∷ []
unfolding found_thread find_thread
found_here tid t ts h = rw (h, found_thread, find_thread) refl

found_later :
    (tid : ℕ) (t : Thread) (ts : List Thread)
    → (t.tid == tid) ≡ false
    → found_thread (some tid) (t ∷ ts) ≡ found_thread (some tid) ts
unfolding found_thread find_thread
found_later tid t ts h = rw (h, found_thread, find_thread) refl

ordered-perm_tid :
    (tid : ℕ) (ts : List Thread) → DistinctTids ts → Perm (ordered_threads (some tid) ts) ts
unfolding ordered_threads other_threads found_thread find_thread
ordered-perm_tid tid [] d = Perm.refl []
ordered-perm_tid tid (t ∷ ts) d = elim (Bool-cases (t.tid == tid)) [
  | inl same ↦
      rw (found_here tid t ts same, same)
        (rw
          (others_absent tid ts
            (subst (λ k. All (λ (u : Thread). u.tid ≢ k) ts) ((==_iff t.tid tid).0 same) d.0))
          (Perm.refl (t ∷ ts)))
  | inr other ↦
      rw (found_later tid t ts other, other)
        (Perm.trans (perm_middle (found_thread (some tid) ts) (other_threads (some tid) ts))
          (Perm.cons t (ordered-perm_tid tid ts d.1)))
]

-- With distinct thread ids no thread is lost or repeated, whatever the crashing id is.
pub ordered_threads-perm :
    (crashing : Option ℕ) (ts : List Thread)
    → DistinctTids ts
    → Perm (ordered_threads crashing ts) ts
unfolding ordered_threads
ordered_threads-perm none ts d = subst (λ us. Perm us ts) (sym (others_none ts)) (Perm.refl ts)
ordered_threads-perm (some tid) ts d = ordered-perm_tid tid ts d
