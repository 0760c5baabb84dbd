-- ===== src/Tests/Estimators.antt =====
-- The estimator, with the floating-point operations replaced by those on numbers.
use flow_bundler.Common.{◌+◌, ◌*◌, ◌-◌, ◌/◌, arith}
use flow_bundler.EasyMap.{Doubles, fresh_info, update_info}
use flow_bundler.EasyMap.Estimates.{IsWindow, fresh_info-IsWindow, update_info-IsWindow}

abbrev pub numbers : Doubles
numbers = record {
  of_u64 = λ n. n;
  to_u64 = λ n. n;
  add = λ a b. a + b;
  sub = λ a b. a - b;
  mul = λ a b. a * b;
  div = λ a b. a / b;
}

update_info-IsWindow_example : IsWindow (update_info numbers fresh_info 1500 100 3)
update_info-IsWindow_example =
    update_info-IsWindow numbers fresh_info 1500 100 3 fresh_info-IsWindow (omega arith)
