-- ===== src/National/Loops/Settle/Tests.antt =====
-- A mutation that is settled at its second attempt: the theorems on src/national-radar/NationalFinalizeLoop.ts and
-- NationalRollbackLoop.ts applied to it.
use mistr.Prelude.{leb, ◌==◌, if◌then◌else◌, ok, err, ℕ, ◌≡◌, refl, true, none, [], ◌∷◌, arith}
use mistr.National.Loops.{returned}
use mistr.National.Loops.Settle.{
  finalize_national_history_until_settled, Options, attempted, recovered, on_failure, waited,
  maximum_level,
}
use mistr.National.Loops.Settle.Laws.{Ends, levels, Rises, IsLimited, finalize-Ends}

-- Error 1 is transient and error 2 is terminal.
abbrev second_time : Options ℕ ℕ
second_time = record {
  should_continue = λ t. true;
  settle = λ t. if leb 2 t then ok 70 else err 1;
  recover = λ t. err 2;
  is_terminal = λ e. e == 2;
  wait_before_retry = λ t level. ok tt;
  maximum_retry_delay_level = none;
}

second_time_settles :
    finalize_national_history_until_settled second_time 5
    ≡ (returned 70, attempted 0 ∷ recovered 0 ∷ on_failure 1 1 ∷ waited 1 ∷ attempted 2 ∷ [])
unfolding finalize_national_history_until_settled
second_time_settles = refl

limited : IsLimited second_time
unfolding maximum_level
limited = ground arith

finalize-Ends_example :
    let run = finalize_national_history_until_settled second_time 5 in
    Ends second_time 5 run.0 × Rises second_time 0 (levels second_time run.1)
finalize-Ends_example = finalize-Ends second_time 5 limited
