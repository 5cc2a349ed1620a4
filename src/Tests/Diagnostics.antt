-- ===== src/Tests/Diagnostics.antt =====
-- The theorems about diagnostics/ at concrete answers of the system.
use watchdirs.Prelude.{◌≡◌, none, some, List, [], ◌∷◌, arith}
use watchdirs.Prelude.Int.{pos}
use watchdirs.Diagnostics.Rows.{Relevance, ActionHint, Evidence}
use watchdirs.Diagnostics.Lsof.{parse_lsof_field_output}
use watchdirs.Diagnostics.Lsof.Printed.{Process, print_lsof, rows_of, warnings_of}
use watchdirs.Diagnostics.Lsof.RoundTrip.{parse-print_lsof}
use watchdirs.Diagnostics.DeletedOpen.Sources.{
  Found, LsofAnswer, file_not_found, completed, ProcListing, processes, target, listed,
}
use watchdirs.Diagnostics.DeletedOpen.{gather}
use watchdirs.Diagnostics.DeletedOpen.Gathered.{IsOutcome, gather-IsOutcome}

-- pid 70 with a file of 512 bytes and one without a size, and pid 8 with none
abbrev two_processes : List Process
two_processes =
    (record {
      pid = record { first = 7; more = 0 ∷ [] };
      after_pid = (b'g' ∷ b'7' ∷ []) ∷ [];
      command = b'd' ∷ [];
      after_command = (b'u' ∷ b'0' ∷ []) ∷ [];
      files =
          (record {
            fd = b'4' ∷ [];
            after_fd = (b't' ∷ b'R' ∷ []) ∷ [];
            size = some (record { first = 5; more = 1 ∷ 2 ∷ [] });
            after_size = (b'i' ∷ b'9' ∷ []) ∷ [];
            name = b'/' ∷ b'a' ∷ [];
          })
          ∷ (record {
            fd = b'5' ∷ [];
            after_fd = [];
            size = none;
            after_size = [];
            name = b'/' ∷ b'b' ∷ [];
          })
          ∷ [];
    })
    ∷ (record {
      pid = record { first = 8; more = [] };
      after_pid = [];
      command = b'e' ∷ [];
      after_command = [];
      files = [];
    })
    ∷ []

parse-print_lsof_example :
    parse_lsof_field_output (print_lsof two_processes)
    ≡ (rows_of two_processes, warnings_of two_processes)
parse-print_lsof_example = parse-print_lsof two_processes (ground arith)

-- /proc/70/fd/4 -> "/a (deleted)"
abbrev one_in_proc : ProcListing
one_in_proc = processes (
    (record {
      name = b'7' ∷ b'0' ∷ [];
      comm = some (b'd' ∷ 10 ∷ []);
      fds = listed (
          (record {
            name = b'4' ∷ [];
            link = target (
                b'/' ∷ b'a' ∷ b' ' ∷ b'(' ∷ b'd' ∷ b'e' ∷ b'l' ∷ b'e' ∷ b't' ∷ b'e' ∷ b'd' ∷ b')'
                ∷ []);
          })
          ∷ []);
    })
    ∷ [])

gather-IsOutcome_example : IsOutcome file_not_found one_in_proc (gather file_not_found one_in_proc)
gather-IsOutcome_example = gather-IsOutcome file_not_found one_in_proc

abbrev printed_answer : LsofAnswer
printed_answer =
    completed
      (b'p' ∷ b'7' ∷ 0 ∷ b'c' ∷ b'd' ∷ 0 ∷ 10 ∷ b'f' ∷ b'4' ∷ 0 ∷ b's' ∷ b'9' ∷ 0 ∷ b'n' ∷ b'/'
        ∷ b'a' ∷ 0 ∷ 10 ∷ [])
      [] (pos 0)

abbrev found_by_lsof : Found
found_by_lsof = record {
  rows =
      record {
        pid = pos 7;
        command = b'd' ∷ [];
        fd = b'4' ∷ [];
        size_bytes = some (pos 9);
        path = b'/' ∷ b'a' ∷ [];
        storage_domain = none;
        disk_pressure_relevance = Relevance.unknown;
        action_hint = ActionHint.owner_hint;
        source = Evidence.lsof;
      }
      ∷ [];
  warnings = [];
}
