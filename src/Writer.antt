-- ===== src/Writer.antt =====
-- `std::io::Write`: a writer takes bytes or fails, and a function that is generic over one is an
-- `Action` on its state. What a writer holds after a failure is not kept, since every caller passes
-- the failure on and drops the writer.
pub mod Simulation
use minidump2core.Prelude.{ℕ, ◌≡◌, refl, List, ◌++◌}
use minidump2core.Error.{Result, ok, err, panic}

pub record Write (W : Type 0) : Type 0 where
  pub write_all : List ℕ → W → Result W

abbrev pub Action : Type 0 → Type 0
Action W = W → Result W

abbrev pub write_all : {W : Type 0} ⦃wr : Write W⦄ → List ℕ → Action W
write_all ⦃wr⦄ = wr.write_all

-- `Ok(())`
abbrev pub done : {W : Type 0} → Action W
done w = ok w

-- A fallible value in a writing function, and two writes one after the other; `?` after each.
infixl 5 ◌>>=◌ ◌>>◌
abbrev pub ◌>>=◌ : {W A : Type 0} → Result A → (A → Action W) → Action W
◌>>=◌ r f w = elim r [ ok a ↦ f a w | err e ↦ err e | panic s ↦ panic s ]

abbrev pub ◌>>◌ : {W : Type 0} → Action W → Action W → Action W
◌>>◌ a b w = elim (a w) [ ok w' ↦ b w' | err e ↦ err e | panic s ↦ panic s ]

-- A `Vec<u8>` takes everything.
instance abbrev pub vec_write : Write (List ℕ)
vec_write = record { write_all = λ bytes w. ok (w ++ bytes) }
