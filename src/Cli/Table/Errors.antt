-- ===== src/Cli/Table/Errors.antt =====
-- The errors of cmd/cli/helpers.go's tabWriterHelper.
use kubecopilot_core.Common.{String, Option, none, some, List, [], ◌∷◌, ◌≡◌, refl}
use kubecopilot_core.Api.Meta.{ApiError}
use kubecopilot_core.Cli.Table.{TabWriter, new_stdout_tab_writer_helper, print_rows, flush}

module _ (tab : TabWriter) where
  -- A caller that looks at the error of each write before the next; `e` is the error so far.
  abbrev pub checked_from : List String → Option ApiError → tab.State → Option ApiError × tab.State
  checked_from rows (some e) tw = (some e, tw)
  checked_from [] none tw = tab.flush tw
  checked_from (row ∷ rows) none tw = checked_from rows (tab.write row tw).0 (tab.write row tw).1

  flush-print_rows :
      (rows : List String) (e : Option ApiError) (tw : tab.State)
      → flush tab (print_rows tab rows (record { tw = tw; err = e })) ≡ checked_from rows e tw
  unfolding flush print_rows
  flush-print_rows [] none tw = refl
  flush-print_rows [] (some e) tw = refl
  flush-print_rows (row ∷ rows) none tw =
      flush-print_rows rows (tab.write row tw).0 (tab.write row tw).1
  flush-print_rows (row ∷ rows) (some e) tw = flush-print_rows rows (some e) tw

  -- Rows that are printed one after the other with one look at the error at the end give the same
  -- error, and leave the writer in the same state, as with a look behind each row that stops at the
  -- first error.
  pub flush-print_rows_checked :
      (rows : List String)
      → flush tab (print_rows tab rows (new_stdout_tab_writer_helper tab))
        ≡ checked_from rows none tab.empty
  unfolding new_stdout_tab_writer_helper
  flush-print_rows_checked rows = flush-print_rows rows none tab.empty
