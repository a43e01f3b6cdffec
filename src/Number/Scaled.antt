-- ===== src/Number/Scaled.antt =====
-- An instance of the numbers: non-negative millionths.
use Prim.Native.Nat
use socio_technical_alignmen.Prelude.{
  ℕ, ◌+◌, ◌-◌, ◌*◌, ◌/◌, ◌^◌, ◌<◌, ◌≤◌, zero, suc, ◌≡◌, true, arith, ltb, leb, lt→ltb,
}
use socio_technical_alignmen.Number.{Number, IsOrdered}

abbrev unit : ℕ
unit = 1000000

instance abbrev pub scaled : Number ℕ
scaled = record {
  lit = λ n k. n * 10 ^ (6 - k);
  lt = ltb;
  le = leb;
  add = λ a b. a + b;
  sub = λ a b. a - b;
  mul = λ a b. a * b / unit;
  div = λ a b. a * unit / b;
  min = λ a b. Nat.min a b;
  max = λ a b. Nat.max a b;
  round = λ a. (a + 500000) / unit * unit;
  to_fixed = λ k a. "n";
  to_locale = λ a. "n";
  to_text = λ a. "n";
}

lit_mono :
    (a b k : ℕ) → a < b → b < 1000000 → k ≤ 4 → ltb (a * 10 ^ (6 - k)) (b * 10 ^ (6 - k)) ≡ true
lit_mono a b zero h _ _ = lt→ltb _ _ (omega arith)
lit_mono a b (suc zero) h _ _ = lt→ltb _ _ (omega arith)
lit_mono a b (suc (suc zero)) h _ _ = lt→ltb _ _ (omega arith)
lit_mono a b (suc (suc (suc zero))) h _ _ = lt→ltb _ _ (omega arith)
lit_mono a b (suc (suc (suc (suc zero)))) h _ _ = lt→ltb _ _ (omega arith)
lit_mono a b (suc (suc (suc (suc (suc k))))) h _ q = absurd (omega arith)

pub scaled-IsOrdered : IsOrdered ℕ
scaled-IsOrdered = record {
  le_lt = λ a b. ground arith;
  lt_asymm = λ a b h. ground arith;
  lt_split = λ a b c h. ground arith;
  max_left = λ a b. ground arith;
  max_right = λ a b. ground arith;
  max_cases = λ a b. omega arith;
  lit_mono = lit_mono;
}
