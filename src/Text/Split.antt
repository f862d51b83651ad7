-- ===== src/Text/Split.antt =====
-- `str::lines` and `str::split_whitespace`.
pub mod Laws
use minidump2core.Prelude.{ℕ, Bool, false, not, ◌&&◌, ◌||◌, List, [], ◌∷◌, leb, ◌==◌, if◌then◌else◌}

abbrev pub newline : ℕ
newline = 0x0a

abbrev pub carriage_return : ℕ
carriage_return = 0x0d

-- `char::is_whitespace`: Unicode's White_Space.
unfoldable pub is_whitespace : ℕ → Bool
is_whitespace c =
    (leb 0x09 c && leb c 0x0d)
    || ((c == 0x20)
        || ((c == 0x85)
            || ((c == 0xa0)
                || ((c == 0x1680)
                    || ((leb 0x2000 c && leb c 0x200a)
                        || ((c == 0x2028)
                            || ((c == 0x2029)
                                || ((c == 0x202f) || ((c == 0x205f) || (c == 0x3000))))))))))

-- A character in front of the first piece.
unfoldable pub cons_first : ℕ → List (List ℕ) → List (List ℕ)
cons_first c [] = (c ∷ []) ∷ []
cons_first c (piece ∷ pieces) = (c ∷ piece) ∷ pieces

-- `starts_with(test)`
unfoldable pub starts_with : (ℕ → Bool) → List ℕ → Bool
starts_with test [] = false
starts_with test (c ∷ cs) = test c

-- A line ends in "\n" or "\r\n"; the last may end with the text.
unfoldable pub lines : List ℕ → List (List ℕ)
unfolding cons_first starts_with
lines [] = []
lines (c ∷ cs) =
    let rest = lines cs in
    if c == newline
    then [] ∷ rest
    else (if (c == carriage_return) && starts_with (λ d. d == newline) cs
        then rest
        else cons_first c rest)

unfoldable pub split_whitespace : List ℕ → List (List ℕ)
unfolding is_whitespace cons_first starts_with
split_whitespace [] = []
split_whitespace (c ∷ cs) =
    let rest = split_whitespace cs in
    if is_whitespace c
    then rest
    else (if starts_with (λ d. not (is_whitespace d)) cs
        then cons_first c rest
        else (c ∷ []) ∷ rest)
