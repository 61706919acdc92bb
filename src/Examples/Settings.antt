-- ===== src/Examples/Settings.antt =====
-- The theorem on references to the environment at work.
use Prim.Native.Char.{Char}
use home_work_ad_processor_g.Prelude.{◌≡◌, refl, Option, none, String, pos, write_nat, arith}
use home_work_ad_processor_g.Config.{Setting, process_value}
use home_work_ad_processor_g.Config.References.{reference, process_value-int}

abbrev same : Char → Char
same c = c

abbrev no_float : String → Option (Unit {0})
no_float s = none

abbrev unset : String → String
unset name = ""

process_value-int_example :
    (unset "SERVER_PORT" ≡ ""
      → process_value same no_float unset
          (Setting.text (reference "SERVER_PORT" (write_nat 8080 "")))
        ≡ Setting.int (pos 8080))
    × (unset "SERVER_PORT" ≡ write_nat 9090 ""
        → process_value same no_float unset
            (Setting.text (reference "SERVER_PORT" (write_nat 8080 "")))
          ≡ Setting.int (pos 9090))
process_value-int_example =
    process_value-int same no_float unset "SERVER_PORT" 8080 9090 (λ d h. refl) (λ e. cc) refl
      (omega arith) (omega arith)
