-- ===== src/Money/Exact.antt =====
-- Where the arithmetic of `Money` is exact.
use agentic_fintech_ecosyste.Prelude.{ℕ, ◌+◌, ◌-◌, ◌<◌, ◌≡◌, arith}
use agentic_fintech_ecosyste.Money.{precision_limit, round, add, sub_clipped}

pub round-eq : (n : ℕ) → n < precision_limit → round n ≡ n
unfolding round
round-eq n h = ground arith

pub add-eq : (a b : ℕ) → a + b < precision_limit → add a b ≡ a + b
unfolding add
add-eq a b h = round-eq (a + b) h

pub sub_clipped-eq : (a b : ℕ) → a < precision_limit → sub_clipped a b ≡ a - b
unfolding sub_clipped
sub_clipped-eq a b h = round-eq (a - b) (omega arith)
