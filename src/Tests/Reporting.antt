-- ===== src/Tests/Reporting.antt =====
-- Reports and slots at concrete inputs.
use rpi_hadoop.Prelude.{◌≡◌, refl, some, arith, codes, done, fault, ◌>>=◌, pos}
use rpi_hadoop.CText.{tokens, atoi, sprintf, format_int}
use rpi_hadoop.CArray.{IntArray, zeros, update}
use rpi_hadoop.Report.{Tables, int_arry_toa, compose_report, process_report}
use rpi_hadoop.Report.Buffers.{int_arry_toa_overrun}
use rpi_hadoop.Report.RoundTrip.{reported, process_report-compose_report}
use rpi_hadoop.Report.Safety.{SameBut, sender, process_report_safe, process_report_fault}
use rpi_hadoop.Report.Earlier.{response_task}
use rpi_hadoop.Report.Earlier.Sums.{added, response_task-compose_report}
use rpi_hadoop.Scheduler.{config_message}
use rpi_hadoop.Slot.{Slot, recv_config}
use rpi_hadoop.Slot.Grant.{recv_config-config_message}

abbrev no_reports : Tables
no_reports = record { p = zeros; sp = zeros; reducer = zeros }

abbrev rates : IntArray
rates = update (update zeros 2 (pos 2259)) 4 (pos 1)

report_text_test :
    compose_report (pos 3) (pos 1500) (pos 7) rates ≡ done (codes "3.1500.7.0.0.2259.0.1.0.0.0.0")
unfolding compose_report sprintf format_int
report_text_test = refl

process_report-compose_report_example :
    (compose_report (pos 3) (pos 1500) (pos 7) rates >>= λ content.
    process_report content no_reports)
    ≡ done (reported 3 (pos 1500) (pos 7) rates no_reports)
process_report-compose_report_example =
    process_report-compose_report 3 (pos 1500) (pos 7) rates no_reports (omega arith) (omega arith)
      (omega arith) (omega arith)

process_report_safe_example :
    (t' : Tables) × (process_report (codes "4.10.0.5") no_reports ≡ done t')
    × SameBut (sender (tokens b'.' (codes "4.10.0.5"))) no_reports t'
unfolding tokens atoi
process_report_safe_example = process_report_safe (codes "4.10.0.5") no_reports (omega arith)

-- A report of node 12 is written behind the end of the tables.
process_report_fault_example : process_report (codes "12.10.0.5") no_reports ≡ fault
unfolding tokens atoi
process_report_fault_example =
    process_report_fault (codes "12.10.0.5") no_reports (λ h. omega arith)

int_arry_toa_overrun_example : int_arry_toa (update zeros 1 (pos 12345)) ≡ fault
int_arry_toa_overrun_example =
    int_arry_toa_overrun 1 12345 (update zeros 1 (pos 12345)) (omega arith) refl (omega arith)

abbrev no_slot : Slot
no_slot = record { slot = pos 0; est = pos 0; priority_reducer = pos 0 }

recv_config-config_message_example :
    (config_message 3 (pos 2_000_000) 5 >>= λ message. recv_config 20_001 message no_slot)
    ≡ done (record {
      state = record { slot = pos 0; est = pos 2_000_000; priority_reducer = pos 0 };
      answer = some (codes "1");
      sleeps = 20_000;
    })
recv_config-config_message_example =
    recv_config-config_message 20_001 3 5 (pos 2_000_000) no_slot (omega arith) (omega arith)
      (omega arith) (omega arith)

response_task-compose_report_example :
    (compose_report (pos 3) (pos 1500) (pos 7) rates >>= λ content. response_task content zeros)
    ≡ done (added 3 (pos 1500) (pos 1130) zeros)
response_task-compose_report_example =
    response_task-compose_report 3 (pos 1500) (pos 7) rates zeros (omega arith) (omega arith)
      (omega arith) (omega arith) (omega arith)

-- The earlier server has no entry for node 7.
response_task_node_7 :
    (compose_report (pos 7) (pos 1500) (pos 7) rates >>= λ content. response_task content zeros)
    ≡ fault
response_task_node_7 =
    response_task-compose_report 7 (pos 1500) (pos 7) rates zeros (omega arith) (omega arith)
      (omega arith) (omega arith) (omega arith)
