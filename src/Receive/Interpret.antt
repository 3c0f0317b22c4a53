-- ===== src/Receive/Interpret.antt =====
-- receive/receive.go: a graph as the handler of a pack.
pub mod Addressed
pub mod Complete
use treevial.Prelude.{ok, Bytes, List, Exec, Result}
use treevial.Git.{Hash, TreeEntry}
use treevial.Packread.{PackCode, Scanned, ScanFault, Handler, scan}
use treevial.Receive.Graph.{Graph, on_blob, on_tree}

-- A graph refuses nothing.
pub data NoFault : Type 0 where

abbrev pub graph_handler : Handler Graph NoFault
graph_handler = record {
  on_blob = λ h content g. (on_blob h content g, ok tt);
  on_tree = λ h es g. (on_tree h es g, ok tt);
}

unfoldable pub interpret : PackCode → Scanned → Exec Graph (ScanFault NoFault) (Unit {0})
interpret code = scan code graph_handler
