-- ===== src/Objects/Load.antt =====
-- objects/store.go: `LoadPack`, a store as the handler of a pack.
pub mod Counts
use treevial.Prelude.{
  ℕ, suc, Bytes, List, Result, ok, err, Exec, ◌>>=◌, raise, if◌then◌else◌, ◌==◌, not,
}
use treevial.Git.{Git, Hash, TreeEntry}
use treevial.Objects.Store.{Fault, misplaced, Store, Action, add_blob, add_tree}
use treevial.Packread.{PackCode, Scanned, ScanFault, Handler, scan}

-- `loader`
pub record Loader (g : Git) : Type 0 where
  pub store : Store g
  pub loaded : ℕ

module _ (g : Git) where
  abbrev pub check_loaded : Hash → Hash → Exec (Loader g) Fault (Unit {0})
  check_loaded arrived stored l =
      if not (stored == arrived)
      then (l, err (misplaced arrived stored))
      else (record l { loaded = suc l.loaded }, ok tt)

  -- An operation of the store that the loader holds.
  abbrev pub on_store {ℓ} : {A : Type ℓ} → Action g A → Exec (Loader g) Fault A
  on_store run l = (record l { store = (run l.store).0 }, (run l.store).1)

  abbrev pub load_blob : Hash → Bytes → Exec (Loader g) Fault (Unit {0})
  load_blob h content = on_store (add_blob g content) >>= check_loaded h

  abbrev pub load_tree : Hash → List TreeEntry → Exec (Loader g) Fault (Unit {0})
  load_tree h es = on_store (add_tree g es) >>= check_loaded h

  abbrev pub loader : Handler (Loader g) Fault
  loader = record { on_blob = load_blob; on_tree = load_tree }

  -- The count of the objects that were loaded is returned with an error too.
  abbrev pub load_result :
      Loader g × Result (ScanFault Fault) (Unit {0})
      → Store g × ℕ × Result (ScanFault Fault) (Unit {0})
  load_result (l, r) = (l.store, l.loaded, r)

  unfoldable pub load_pack :
      PackCode → Scanned → Store g → Store g × ℕ × Result (ScanFault Fault) (Unit {0})
  load_pack code pack s = load_result (scan code loader pack (record { store = s; loaded = 0 }))
