-- ===== src/Storage/Tests.antt =====
-- thread/storage_live/ as it stands in the source.
use eltex_courses_homeworks.Prelude.{◌≡◌, true, fault, arith}
use eltex_courses_homeworks.Storage.Defs.{source_config}
use eltex_courses_homeworks.Storage.Start.{start}
use eltex_courses_homeworks.Storage.Start.Laws.{start-fault}

start-fault_example : start source_config true (λ i. i) true (λ _. true) (λ _. 7) ≡ fault
start-fault_example =
    start-fault source_config true true (λ _. true) (λ i. i) (λ _. 7) (omega arith)
