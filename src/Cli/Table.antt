-- ===== src/Cli/Table.antt =====
-- `tabWriterHelper` of cmd/cli/helpers.go: rows written to a text/tabwriter, whose first error is
-- kept for `Flush`.
pub mod Errors
use kubecopilot_core.Common.{
  String, Option, none, some, List, [], ◌∷◌, ◌≡◌, refl, arith, Result, ok, err,
}
use kubecopilot_core.Common.Text.{◌<>◌}
use kubecopilot_core.Api.Meta.{ApiError}
use kubecopilot_core.Env.{Env, Stream}
use kubecopilot_core.Env.Exec.{Exec, stop, ◌>>=◌, ◌>>◌}
use kubecopilot_core.Env.Console.{print}

-- A `tabwriter.Writer` over os.Stdout: a write and a flush answer an error or `none`, and `output` is
-- what has reached os.Stdout.
pub record TabWriter : Type 1 where
  pub State : Type 0
  pub empty : State
  pub write : String → State → Option ApiError × State
  pub flush : State → Option ApiError × State
  pub output : State → String

module _ (tab : TabWriter) where
  pub record TabWriterHelper : Type 0 where
    pub tw : tab.State
    pub err : Option ApiError

  pub new_stdout_tab_writer_helper : TabWriterHelper
  new_stdout_tab_writer_helper = record { tw = tab.empty; err = none }

  abbrev pub write_if_good : String → tab.State → Option ApiError → TabWriterHelper
  write_if_good text tw (some e) = record { tw = tw; err = some e }
  write_if_good text tw none = let (e, tw') = tab.write text tw in record { tw = tw'; err = e }

  -- `Printf`, at the formatted text
  pub printf : String → TabWriterHelper → TabWriterHelper
  printf text w = write_if_good text w.tw w.err

  pub println : String → TabWriterHelper → TabWriterHelper
  println s w = write_if_good (s <> "\n") w.tw w.err

  abbrev pub flush_if_good : tab.State → Option ApiError → Option ApiError × tab.State
  flush_if_good tw (some e) = (some e, tw)
  flush_if_good tw none = tab.flush tw

  pub flush : TabWriterHelper → Option ApiError × tab.State
  flush w = flush_if_good w.tw w.err

  pub print_rows : List String → TabWriterHelper → TabWriterHelper
  unfolding printf
  print_rows [] w = w
  print_rows (row ∷ rows) w = print_rows rows (printf row w)

-- `return w.Flush()`
pub finish :
    (tab : TabWriter) {env : Env} → TabWriterHelper tab → Exec env (Option String) (Unit {0})
unfolding flush
finish tab w = do
  let (e, tw) = flush tab w
  print Stream.stdout (tab.output tw)
  stop (elim e [ none ↦ none | some e' ↦ some e'.text ])
