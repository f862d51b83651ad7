-- ===== src/LinuxMaps/Printed/Words.antt =====
-- The words of a printed line.
use minidump2core.Prelude.{
  All-append, All-mono, ℕ, zero, suc, ◌≡◌, refl, ap, sym, ◌∙◌, arith, inl, inr, Bool, true, false,
  List, [], ◌∷◌, ◌++◌, if◌then◌else◌, All, replicate,
}
use mathlib.Core.Path.{subst}
use minidump2core.Text.Split.{is_whitespace, split_whitespace, lines, newline}
use minidump2core.Text.Split.Laws.{
  InWord, InLine, lines-append, words-space, words-append, words-last,
}
use minidump2core.Text.Hex.{lower_hex}
use minidump2core.Text.Hex.RoundTrip.{IsDigit, lower_hex-IsDigit, lower_hex-cons}
use minidump2core.LinuxMaps.{dash, slash}
use minidump2core.LinuxMaps.Printed.{
  space, Backing, anonymous, special, file, MapsEntry, IsEntry, IsWord, IsBacking, flag,
  print_range, print_permissions, print_backing, print_entry,
}

digit-InWord : (c : ℕ) → IsDigit c → InWord c
unfolding is_whitespace
digit-InWord c (inl h) = ground arith
digit-InWord c (inr h) = ground arith

pub hex-InWord : (k v : ℕ) → All InWord (lower_hex k v)
hex-InWord k v = All-mono IsDigit InWord digit-InWord (lower_hex k v) (lower_hex-IsDigit k v)

-- A word, where it is not empty.
to-IsWord :
    (xs : List ℕ) (c : ℕ) (ys : List ℕ)
    → All InWord xs
    → InWord c
    → All InWord ys
    → IsWord (xs ++ (c ∷ ys))
to-IsWord [] c ys h k l = (k, l)
to-IsWord (x ∷ xs) c ys h k l = (h.0, All-append InWord xs (c ∷ ys) h.1 (k, l))

of-IsWord : (w : List ℕ) → IsWord w → All InWord w
of-IsWord [] h = elim h [ ]
of-IsWord (c ∷ cs) h = h

hex-IsWord : (k v : ℕ) → IsWord (lower_hex (suc k) v)
hex-IsWord k v =
    let (c, cs, e, d) = lower_hex-cons k v in
    subst IsWord (sym e) (subst (All InWord) e (hex-InWord (suc k) v))

range-IsWord : (e : MapsEntry) → IsWord (print_range e)
unfolding print_range is_whitespace
range-IsWord e =
    to-IsWord (lower_hex (suc e.start_width) e.start) dash
      (lower_hex (suc e.end_width) e.end_address) (hex-InWord (suc e.start_width) e.start) refl
      (hex-InWord (suc e.end_width) e.end_address)

flag-InWord : (test : Bool) (letter : ℕ) → InWord letter → InWord (flag test letter)
unfolding is_whitespace
flag-InWord true letter h = h
flag-InWord false letter h = refl

permissions-IsWord : (e : MapsEntry) → IsWord (print_permissions e)
unfolding print_permissions is_whitespace
permissions-IsWord e = (
  flag-InWord e.readable b'r' refl,
  (flag-InWord e.writable b'w' refl, (flag-InWord e.executable b'x' refl, (sharing e.shared, tt))),
)
  where
    sharing : (test : Bool) → InWord (if test then b's' else b'p')
    sharing true = refl
    sharing false = refl

word_off :
    (w rest : List ℕ)
    → IsWord w
    → split_whitespace (w ++ (space ∷ rest)) ≡ w ∷ split_whitespace rest
unfolding is_whitespace
word_off [] rest h = elim h [ ]
word_off (c ∷ cs) rest h = words-append c cs space rest h.0 h.1 refl

skip_padding :
    (n : ℕ) (rest : List ℕ) → split_whitespace (replicate n space ++ rest) ≡ split_whitespace rest
unfolding is_whitespace
skip_padding zero rest = refl
skip_padding (suc n) rest = words-space space (replicate n space ++ rest) refl ∙ skip_padding n rest

abbrev pub backing_words : Backing → List (List ℕ)
backing_words anonymous = []
backing_words (special c name) = (c ∷ name) ∷ []
backing_words (file name) = (slash ∷ name) ∷ []

words-backing : (b : Backing) → IsBacking b → split_whitespace (print_backing b) ≡ backing_words b
unfolding split_whitespace is_whitespace
words-backing anonymous h = refl
words-backing (special c name) h = words-last c name h.1.0 h.1.1
words-backing (file name) h = words-last slash name refl h

pub words-print_entry :
    (e : MapsEntry)
    → IsEntry e
    → split_whitespace (print_entry e)
      ≡ print_range e
        ∷ (print_permissions e
            ∷ (lower_hex (suc e.offset_width) e.offset
                ∷ (e.device ∷ (e.inode ∷ backing_words e.backing))))
unfolding print_entry
words-print_entry e h =
    word_off (print_range e) _ (range-IsWord e)
    ∙ ap (λ t. print_range e ∷ t)
        (word_off (print_permissions e) _ (permissions-IsWord e)
          ∙ ap (λ t. print_permissions e ∷ t)
              (word_off (lower_hex (suc e.offset_width) e.offset) _
                  (hex-IsWord e.offset_width e.offset)
                ∙ ap (λ t. lower_hex (suc e.offset_width) e.offset ∷ t)
                    (word_off e.device _ h.device_word
                      ∙ ap (λ t. e.device ∷ t)
                          (word_off e.inode _ h.inode_word
                            ∙ ap (λ t. e.inode ∷ t)
                                (skip_padding e.padding (print_backing e.backing)
                                  ∙ words-backing e.backing h.backing_word)))))

InWord-InLine : (c : ℕ) → InWord c → InLine c
unfolding is_whitespace
InWord-InLine c h = (λ e. absurd (ground (arith, e)), λ e. absurd (ground (arith, e)))

word-InLine : (w : List ℕ) → IsWord w → All InLine w
word-InLine w h = All-mono InWord InLine InWord-InLine w (of-IsWord w h)

spaces-InLine : (n : ℕ) (rest : List ℕ) → All InLine rest → All InLine (replicate n space ++ rest)
spaces-InLine zero rest h = h
spaces-InLine (suc n) rest h = ((omega arith, omega arith), spaces-InLine n rest h)

backing-InLine : (b : Backing) → IsBacking b → All InLine (print_backing b)
backing-InLine anonymous h = tt
backing-InLine (special c name) h = word-InLine (c ∷ name) h.1
backing-InLine (file name) h =
    ((omega arith, omega arith), All-mono InWord InLine InWord-InLine name h)

followed : (w rest : List ℕ) → IsWord w → All InLine rest → All InLine (w ++ (space ∷ rest))
followed w rest h k =
    All-append InLine w (space ∷ rest) (word-InLine w h) ((omega arith, omega arith), k)

entry-InLine : (e : MapsEntry) → IsEntry e → All InLine (print_entry e)
unfolding print_entry
entry-InLine e h = followed (print_range e) _ (range-IsWord e) (
    followed (print_permissions e) _ (permissions-IsWord e) (
      followed (lower_hex (suc e.offset_width) e.offset) _ (hex-IsWord e.offset_width e.offset) (
        followed e.device _ h.device_word (
          followed e.inode _ h.inode_word (
            spaces-InLine e.padding (print_backing e.backing)
              (backing-InLine e.backing h.backing_word))))))

pub lines-print_entry :
    (e : MapsEntry) (rest : List ℕ)
    → IsEntry e
    → lines (print_entry e ++ (newline ∷ rest)) ≡ print_entry e ∷ lines rest
lines-print_entry e rest h = lines-append (print_entry e) rest (entry-InLine e h)
