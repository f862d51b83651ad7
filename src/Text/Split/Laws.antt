-- ===== src/Text/Split/Laws.antt =====
-- A line with its "\n", and a word with what ends it, come off the front.
use minidump2core.Prelude.{ℕ, ◌≡◌, refl, arith, true, false, List, [], ◌∷◌, ◌++◌, All, ◌≢◌}
use minidump2core.Text.Split.{
  is_whitespace, cons_first, starts_with, lines, split_whitespace, newline, carriage_return,
}

abbrev pub InLine : ℕ → Type 0
InLine c = (c ≢ newline) × (c ≢ carriage_return)

abbrev pub InWord : ℕ → Type 0
InWord c = is_whitespace c ≡ false

pub lines-append :
    (line rest : List ℕ) → All InLine line → lines (line ++ (newline ∷ rest)) ≡ line ∷ lines rest
unfolding lines cons_first
lines-append [] rest h = refl
lines-append (c ∷ line) rest h =
    let shorter = lines-append line rest h.1 in rw shorter (ground (arith, h.0))

pub words-space :
    (c : ℕ) (cs : List ℕ) → is_whitespace c ≡ true → split_whitespace (c ∷ cs) ≡ split_whitespace cs
unfolding split_whitespace
words-space c cs h = rw h refl

pub words-append :
    (c : ℕ) (word : List ℕ) (space : ℕ) (rest : List ℕ)
    → InWord c
    → All InWord word
    → is_whitespace space ≡ true
    → split_whitespace ((c ∷ word) ++ (space ∷ rest)) ≡ (c ∷ word) ∷ split_whitespace rest
unfolding split_whitespace starts_with cons_first
words-append c [] space rest h k s = rw h (rw s refl)
words-append c (d ∷ word) space rest h k s =
    let shorter = words-append d word space rest k.0 k.1 s in rw shorter (rw h (rw k.0 refl))

pub words-last :
    (c : ℕ) (word : List ℕ)
    → InWord c
    → All InWord word
    → split_whitespace (c ∷ word) ≡ (c ∷ word) ∷ []
unfolding split_whitespace starts_with cons_first
words-last c [] h k = rw h refl
words-last c (d ∷ word) h k =
    let shorter = words-last d word k.0 k.1 in rw shorter (rw h (rw k.0 refl))
