-- ===== src/Report/Server.antt =====
-- The loop of `process_report`.
use rpi_hadoop.Prelude.{List, [], ◌∷◌, Text, Run, done, ◌>>=◌}
use rpi_hadoop.Report.{Tables, process_report}

-- `while (1)`, for the messages that come.
unfoldable pub process_reports : List Text → Tables → Run Tables
process_reports [] t = done t
process_reports (content ∷ later) t = do t' ← process_report content t; process_reports later t'
