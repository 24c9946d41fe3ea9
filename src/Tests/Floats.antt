-- ===== src/Tests/Floats.antt =====
-- Numbers that stand in for Python's floats in the tests: thousandths.
use domainrag_ops.Prelude.{ℕ, ◌+◌, ◌-◌, ◌*◌, ◌/◌, arith, ltb, leb, ◌==◌, nat_eq}
use domainrag_ops.Prelude.Float.{FloatOps, FloatLaws}

abbrev pub thousandths : FloatOps
thousandths = record {
  Float = ℕ;
  ratio = λ a b. a * 1000 / b;
  of_ℕ = λ n. n * 1000;
  lt = ltb;
  le = leb;
  is_zero = λ x. x == 0;
  plus = λ x y. x + y;
  minus = λ x y. x - y;
  times = λ x y. x * y / 1000;
  over = λ x y. x * 1000 / y;
  sqrt = λ x. x;
}

pub thousandths-laws : FloatLaws thousandths
thousandths-laws = record {
  le-of-lt = λ x y h. ground arith;
  le_trans = λ x y z h k. ground arith;
  lt-false = λ x y h. ground arith;
  le-total = λ x y nx ny h. ground arith;
  of_ℕ-le = λ a b h. ground arith;
}
