-- ===== src/Augment/Dynamic/Entries.antt =====
-- The entries of a dynamic section, and how src/augment.rs reads the tag of one and writes its value.
use minidump2core.Prelude.{
  ℕ, ◌+◌, ◌/◌, ◌^◌, ◌<◌, ◌≤◌, ◌≡◌, refl, true, false, List, [], ◌∷◌, ◌++◌, leb, lt→ltb, ◌==◌,
  if◌then◌else◌, arith, All,
}
use minidump2core.Error.{ok}
use minidump2core.Bytes.{le_bytes, from_le_bytes, from-le_bytes, copy_front}
use minidump2core.Model.Architecture.{
  Architecture, x86, x86_64, arm, aarch64, mips, mips64, is_64bit, long_size, elf_class,
}
use minidump2core.Augment.Dynamic.{dt_null, dt_debug, read_word_pair, write_word, entry_size}

-- A tag and its value, `d_tag` and `d_un`.
abbrev pub DynEntry : Type 0
DynEntry = ℕ × ℕ

abbrev pub dyn_bytes : ℕ → List DynEntry → List ℕ
dyn_bytes word [] = []
dyn_bytes word ((tag, value) ∷ es) = (le_bytes word tag ++ le_bytes word value) ++ dyn_bytes word es

-- The first DT_DEBUG in front of the first DT_NULL has the new value.
abbrev pub patched : ℕ → List DynEntry → List DynEntry
patched addr [] = []
patched addr ((tag, value) ∷ es) =
    if tag == dt_debug
    then (tag, addr) ∷ es
    else (if tag == dt_null then (tag, value) ∷ es else (tag, value) ∷ patched addr es)

abbrev pub TagsFit : ℕ → List DynEntry → Type 0
TagsFit word es = All (λ (e : DynEntry). e.0 < 256 ^ word) es

pub le→leb : (a b : ℕ) → a ≤ b → leb a b ≡ true
le→leb a b h = ground arith

pub lt→leb_false : (a b : ℕ) → a < b → leb b a ≡ false
lt→leb_false a b h = ground arith

pub entry_half : (arch : Architecture) → entry_size arch / 2 ≡ long_size arch
unfolding long_size
entry_half arch = ground arith

pub entry_words : (arch : Architecture) → entry_size arch ≡ long_size arch + long_size arch
unfolding long_size
entry_words arch = ground arith

pub word_pos : (arch : Architecture) → 0 < long_size arch
unfolding long_size
word_pos arch = ground arith

pub read_tag :
    (arch : Architecture) (tag value : ℕ)
    → tag < 256 ^ long_size arch
    → (read_word_pair arch (le_bytes (long_size arch) tag ++ le_bytes (long_size arch) value)).0
      ≡ tag
unfolding read_word_pair long_size le_bytes from_le_bytes is_64bit elf_class
read_tag x86 tag value h = from-le_bytes 4 tag h
read_tag x86_64 tag value h = from-le_bytes 8 tag h
read_tag arm tag value h = from-le_bytes 4 tag h
read_tag aarch64 tag value h = from-le_bytes 8 tag h
read_tag mips tag value h = from-le_bytes 4 tag h
read_tag mips64 tag value h = from-le_bytes 8 tag h

pub write_word-le_bytes :
    (arch : Architecture) (value addr : ℕ)
    → addr < 2 ^ 32
    → write_word arch (le_bytes (long_size arch) value) addr ≡ ok (le_bytes (long_size arch) addr)
unfolding write_word long_size le_bytes copy_front is_64bit elf_class
write_word-le_bytes x86 value addr h = rw (lt→ltb _ _ h) refl
write_word-le_bytes x86_64 value addr h = refl
write_word-le_bytes arm value addr h = rw (lt→ltb _ _ h) refl
write_word-le_bytes aarch64 value addr h = refl
write_word-le_bytes mips value addr h = rw (lt→ltb _ _ h) refl
write_word-le_bytes mips64 value addr h = refl
