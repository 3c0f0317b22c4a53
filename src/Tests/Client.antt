-- ===== src/Tests/Client.antt =====
-- A client that dials, subscribes and is pushed two states; and a pack that is loaded.
use treevial.Prelude.{
  ℕ, zero, suc, ◌+◌, ◌*◌, ◌≤◌, Bool, true, Option, none, some, List, [], ◌∷◌, map, Bytes, ok, ◌≡◌,
  refl, sym, ap, ◌∙◌, arith, All, number_key, ◌==◌, subst, ok_injective,
}
use treevial.Prelude.Int.{pos}
use treevial.Prelude.Text.{ascii}
use treevial.Git.{Hash, TreeEntry, is_dir, regular_mode}
use treevial.Objects.Walk.Reach.{IsKinded}
use treevial.Packread.{next, blob_type, tree_type, Scanned, PackCode, take_objects, scan}
use treevial.Receive.Graph.{
  Graph, new_graph, on_blob, on_tree, get_tree, or_missing, entries, visit_entry, descend, mark,
  mark_all, retain,
}
use treevial.Receive.Interpret.{interpret}
use treevial.Receive.Interpret.Addressed.{IsAddressed, HasNoCollision, Extends, interpret-Grown}
use treevial.Wire.{ServerMessage, update}
use treevial.Client.Consume.{
  Push, Arrival, message, end_of_file, Session, Setup, closed, Ending, new_session, consume,
  take_update,
}
use treevial.Client.Consume.Updates.{IsChain, hash_of, consume-IsChain}
use treevial.Client.Consume.Window.{states_after, first_states, latest, consume-latest}
use treevial.Client.Consume.Previous.{IsHeld, StillHas, take_update-StillHas}

-- A hash without collisions: the bits of the result are read off the bytes.
abbrev put_byte : ℕ → ℕ → ℕ
put_byte zero m = 2 * m + 1
put_byte (suc b) m = 2 * put_byte b m

abbrev code_of : Bytes → ℕ
code_of [] = 0
code_of (b ∷ s) = put_byte b (code_of s)

put_byte_positive : (b m : ℕ) → 1 ≤ put_byte b m
put_byte_positive zero m = omega arith
put_byte_positive (suc b) m = let p = put_byte_positive b m in omega (arith, p)

put_byte_injective : (b c m n : ℕ) → put_byte b m ≡ put_byte c n → (b ≡ c) × (m ≡ n)
put_byte_injective zero zero m n e = (refl, omega (arith, e))
put_byte_injective zero (suc c) m n e = absurd (omega (arith, e))
put_byte_injective (suc b) zero m n e = absurd (omega (arith, e))
put_byte_injective (suc b) (suc c) m n e =
    let same : put_byte b m ≡ put_byte c n = omega (arith, e) in
    let (i, j) = put_byte_injective b c m n same in (ap suc i, j)

code_of_injective : (s t : Bytes) → code_of s ≡ code_of t → s ≡ t
code_of_injective [] [] e = refl
code_of_injective [] (c ∷ t) e =
    let p = put_byte_positive c (code_of t) in absurd (omega (arith, e, p))
code_of_injective (b ∷ s) [] e =
    let p = put_byte_positive b (code_of s) in absurd (omega (arith, e, p))
code_of_injective (b ∷ s) (c ∷ t) e =
    let (i, j) = put_byte_injective b c (code_of s) (code_of t) e in
    ap (λ b. b ∷ s) i ∙ ap (λ s. c ∷ s) (code_of_injective s t j)

abbrev pub file : TreeEntry
file = record { name = ascii "a"; mode = regular_mode; hash = 1 }

-- Every tree holds one file.
abbrev pub code : PackCode
code = record { compute_hash = λ t s. code_of s; decode_entries = λ s. some (file ∷ []) }

pub unique : HasNoCollision code
unique t c d e = code_of_injective c d e

-- The file, with hash 1, and a tree, with hash 2; then another tree, with hash 4.
abbrev first_pack : Scanned
first_pack = record {
  header = some 2;
  objects = next blob_type (0 ∷ []) ∷ next tree_type (1 ∷ []) ∷ [];
  checksum = some 9;
}

abbrev pub second_pack : Scanned
second_pack = record { header = some 1; objects = next tree_type (2 ∷ []) ∷ []; checksum = some 9 }

abbrev pub graph_1 : Graph
graph_1 = record { blobs = (1, 0 ∷ []) ∷ []; trees = (2, file ∷ []) ∷ [] }

read_first : interpret code first_pack new_graph ≡ (graph_1, ok tt)
unfolding interpret scan take_objects on_blob on_tree
read_first = refl

empty-IsAddressed : IsAddressed code new_graph
empty-IsAddressed = record { blobs = λ h c e. cc; trees = λ h es e. cc }

pub graph_1-IsAddressed : IsAddressed code graph_1
graph_1-IsAddressed =
    subst (IsAddressed code) (ap (λ r. r.0) read_first)
      (interpret-Grown code unique first_pack new_graph empty-IsAddressed).0

interpret-Grown_example :
    IsAddressed code (interpret code second_pack graph_1).0
    × Extends graph_1 (interpret code second_pack graph_1).0
interpret-Grown_example = interpret-Grown code unique second_pack graph_1 graph_1-IsAddressed

abbrev setup : Setup
setup = record { ref = ascii "refs/heads/main"; history = 1; sweeping = true }

abbrev pushed : Scanned → ℕ → Push
pushed pack start = record {
  pack = pack;
  drained = true;
  acknowledged = true;
  delivered = true;
  start = start;
  received = start + 100;
}

abbrev named_update : Hash → ℕ → ServerMessage
named_update h n = record {
  type = update;
  hash = h;
  object_count = pos n;
  server_id = [];
  sequence = 0;
}

abbrev arrivals : List Arrival
arrivals =
    message (named_update 2 2) (pushed first_pack 0)
    ∷ message (named_update 4 1) (pushed second_pack 100)
    ∷ message (named_update 4 0) (pushed second_pack 200)
    ∷ end_of_file
    ∷ []

abbrev last_session : Session
last_session = (consume code 5 setup arrivals (new_session setup 0 new_graph)).0

at_the_end : (consume code 5 setup arrivals (new_session setup 0 new_graph)).1 ≡ ok closed
unfolding consume take_update interpret scan take_objects on_blob on_tree retain mark_all mark
    descend visit_entry
at_the_end = refl

heads_at_the_end : last_session.heads ≡ 4 ∷ []
unfolding consume take_update interpret scan take_objects on_blob on_tree retain mark_all mark
    descend visit_entry
heads_at_the_end = refl

consume-IsChain_example :
    IsChain 0 last_session.updates
    × ((e : Ending)
        → (consume code 5 setup arrivals (new_session setup 0 new_graph)).1 ≡ ok e
        → last_session.acks ≡ map hash_of last_session.updates)
consume-IsChain_example = consume-IsChain code 5 setup 0 new_graph arrivals

consume-latest_example :
    last_session.heads ≡ latest 1 (states_after (first_states 0) last_session.updates)
consume-latest_example = consume-latest code 5 setup refl (omega arith) 0 new_graph arrivals

abbrev kind : Hash → Bool
kind h = h == 2

kinded : IsKinded (entries graph_1) kind
kinded x es read = at (get_tree graph_1 x) refl read
  where
    at :
        (o : Option (List TreeEntry))
        → get_tree graph_1 x ≡ o
        → or_missing x o ≡ ok es
        → All (λ e. is_dir e ≡ kind e.hash) es
    at none found read = cc
    at (some fs) found read =
        let same : fs ≡ file ∷ [] = ground arith in
        subst (All (λ e. is_dir e ≡ kind e.hash)) (sym same ∙ ok_injective read) (refl, tt)

-- The session after the first update.
abbrev session_1 : Session
session_1 = record {
  graph = graph_1;
  previous = 2;
  server_id = [];
  heads = 2 ∷ [];
  acks = 2 ∷ [];
  updates = [];
}

take_update-StillHas_example :
    IsAddressed code
      (take_update code 5 setup (named_update 4 1) (pushed second_pack 100) session_1).0.graph
    × ((x : Hash)
        → IsHeld code unique 5 setup session_1 graph_1-IsAddressed kind kinded ((λ nz. refl), tt) x
        → StillHas code unique 5 setup session_1 graph_1-IsAddressed kind kinded
            ((λ nz. refl), tt)
            (take_update code 5 setup (named_update 4 1) (pushed second_pack 100) session_1).0.graph
            x)
take_update-StillHas_example =
    take_update-StillHas code unique 5 setup session_1 graph_1-IsAddressed kind kinded
      ((λ nz. refl), tt) (named_update 4 1) (pushed second_pack 100)
