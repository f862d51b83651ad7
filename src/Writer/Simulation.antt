-- ===== src/Writer/Simulation.antt =====
-- A writer that keeps what it was given, against a `Vec<u8>`: where it succeeds, it holds what the
-- vector would hold.
use minidump2core.Prelude.{ℕ, ◌≡◌, refl, List, ◌++◌, Bool, true, false, if◌then◌else◌, arith}
use minidump2core.Error.{Result, ok, err, panic}
use minidump2core.Writer.{Write, Action, write_all, done, ◌>>=◌, ◌>>◌, vec_write}

-- The documented behaviour of `write_all`: after a success the bytes were taken, in order.
pub record IsLawful {W : Type 0} (wr : Write W) : Type 0 where
  pub written : W → List ℕ
  pub written-write_all :
      (bytes : List ℕ) (w w' : W) → wr.write_all bytes w ≡ ok w' → written w' ≡ written w ++ bytes

module _ {W : Type 0} (wr : Write W) (law : IsLawful wr) where
  -- Where the action succeeds, the vector's succeeds with the same bytes.
  abbrev pub Simulates : Action W → Action (List ℕ) → Type 0
  Simulates a v = (w w' : W) → a w ≡ ok w' → v (law.written w) ≡ ok (law.written w')

  pub sim_write_all : (bytes : List ℕ) → Simulates (wr.write_all bytes) (write_all bytes)
  sim_write_all bytes w w' e = ground (arith, law.written-write_all bytes w w' e)

  pub sim_done : Simulates done done
  sim_done w w' e = ground arith

  pub sim_seq :
      (a b : Action W) (v u : Action (List ℕ))
      → Simulates a v
      → Simulates b u
      → Simulates (a >> b) (v >> u)
  sim_seq a b v u s t w w' e = go (a w) (s w) e
    where
      go :
          (r : Result W)
          → ((w₁ : W) → r ≡ ok w₁ → v (law.written w) ≡ ok (law.written w₁))
          → (elim r as (λ _. Result W) [ ok w₁ ↦ b w₁ | err x ↦ err x | panic s ↦ panic s ]) ≡ ok w'
          → (v >> u) (law.written w) ≡ ok (law.written w')
      go (ok w₁) h e' = ground (arith, h w₁ refl, t w₁ w' e')
      go (err x) h e' = ground arith
      go (panic s) h e' = ground arith

  pub sim_bind :
      {A : Type 0} (r : Result A) (f : A → Action W) (g : A → Action (List ℕ))
      → ((a : A) → Simulates (f a) (g a))
      → Simulates (r >>= f) (r >>= g)
  sim_bind (ok a) f g s w w' e = s a w w' e
  sim_bind (err x) f g s w w' e = ground arith
  sim_bind (panic x) f g s w w' e = ground arith

  pub sim_if :
      (c : Bool) (a b : Action W) (v u : Action (List ℕ))
      → Simulates a v
      → Simulates b u
      → Simulates (if c then a else b) (if c then v else u)
  sim_if true a b v u s t = s
  sim_if false a b v u s t = t
