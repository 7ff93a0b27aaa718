-- ===== src/Api/Quantity.antt =====
-- Kubernetes' `resource.Quantity`, a type of a package that is not part of the repository, by the
-- operations that the webhook calls and their documented laws.
use ch_vmm.Prelude.{ℕ, ◌*◌, ◌≡◌, String, Bool, true}

pub record Quantities : Type 1 where
  pub Quantity : Type 0
  -- `Quantity{}`, what `Cpu()` and `Memory()` give for a missing name.
  pub zero_quantity : Quantity
  pub is_zero : Quantity → Bool
  -- `q.Add(y)`
  pub plus : Quantity → Quantity → Quantity
  -- `NewQuantity(n, DecimalSI)`
  pub new_quantity : ℕ → Quantity
  pub must_parse : String → Quantity
  pub milli_value : Quantity → ℕ
  pub value : Quantity → ℕ
  -- `MustParse` of a number in decimal digits.
  pub parse_count : ℕ → Quantity
  -- `q.Equal(y)`
  pub same : Quantity → Quantity → Bool
  pub is_zero-zero_quantity : is_zero zero_quantity ≡ true
  pub value-parse_count : (n : ℕ) → value (parse_count n) ≡ n
  pub milli_value-new_quantity : (n : ℕ) → milli_value (new_quantity n) ≡ n * 1000
