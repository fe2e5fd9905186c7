-- ===== src/Cfg.antt =====
-- script/racer_parse_compile_data.py: the blocks of a function and their edges, as
-- `iter_compile_logs_by_module` builds and checks them, and `ValueFunc.show_cfg`. A block is named by
-- its hash, the key under which its function has it.
pub mod Edges
pub mod Declared
pub mod Ends
pub mod Counts
pub mod Visits
pub mod Once
pub mod Shown
pub mod Tests
use krace.Prelude.{
  ℕ, zero, suc, Bool, true, false, not, ◌==◌, Option, none, some, List, [], ◌∷◌, ◌++◌, has,
  is_empty, if◌then◌else◌, length, String,
}
use krace.Dict.{Dict, lookup, insert, keys, values}
use krace.Dict.Key.{nat_eq}
use krace.Spec.Result.{Result, ok, raised, key_error, assertion, ◌>>=◌, ◌>>◌, check, or_raise}

-- An instruction of the compile log; its locations are taken as parsed.
pub record Inst : Type 0 where
  pub hval : ℕ
  pub info : List String
  pub text : String

-- A block of the compile log.
pub record BlockLog : Type 0 where
  pub hash : ℕ
  pub pred : List ℕ
  pub succ : List ℕ
  pub inst : List Inst

-- `ValueBlock`
pub record Block : Type 0 where
  pub insts : Dict ℕ Inst
  pub preds : List ℕ
  pub succs : List ℕ

abbrev pub Blocks : Type 0
Blocks = Dict ℕ Block

-- `ValueFunc`
pub record Func : Type 0 where
  pub blocks : Blocks
  pub entry : Option ℕ
  pub exits : List ℕ

unfoldable pub add_insts : List Inst → Dict ℕ Inst → Dict ℕ Inst
add_insts [] insts = insts
add_insts (i ∷ is) insts = add_insts is (insert i.hval i insts)

-- Pass 1.
unfoldable pub add_blocks : List BlockLog → Blocks → Blocks
unfolding add_insts
add_blocks [] blocks = blocks
add_blocks (b ∷ bs) blocks =
    add_blocks bs
      (insert b.hash (record { insts = add_insts b.inst []; preds = []; succs = [] }) blocks)

-- `add_pred`; the two blocks may be one.
unfoldable pub add_pred : ℕ → ℕ → Blocks → Result Blocks
add_pred self block blocks = do
  this ← or_raise key_error (lookup self blocks)
  let blocks' = insert self (record this { preds = this.preds ++ block ∷ [] }) blocks
  other ← or_raise key_error (lookup block blocks')
  ok (insert block (record other { succs = other.succs ++ self ∷ [] }) blocks')

unfoldable pub add_preds : ℕ → List ℕ → Blocks → Result Blocks
unfolding add_pred
add_preds self [] blocks = ok blocks
add_preds self (x ∷ xs) blocks = add_pred self x blocks >>= add_preds self xs

-- Pass 2.
unfoldable pub add_edges : List BlockLog → Blocks → Result Blocks
unfolding add_preds
add_edges [] blocks = ok blocks
add_edges (b ∷ bs) blocks = add_preds b.hash b.pred blocks >>= add_edges bs

-- `add_succ`, which only checks.
unfoldable pub add_succ : ℕ → ℕ → Blocks → Result (Unit {0})
add_succ self block blocks = do
  this ← or_raise key_error (lookup self blocks)
  other ← or_raise key_error (lookup block blocks)
  check (has block this.succs)
  check (has self other.preds)

unfoldable pub add_succs : ℕ → List ℕ → Blocks → Result (Unit {0})
unfolding add_succ
add_succs self [] blocks = ok tt
add_succs self (x ∷ xs) blocks = do add_succ self x blocks; add_succs self xs blocks

-- Pass 3.
unfoldable pub check_edges : List BlockLog → Blocks → Result (Unit {0})
unfolding add_succs
check_edges [] blocks = ok tt
check_edges (b ∷ bs) blocks = do add_succs b.hash b.succ blocks; check_edges bs blocks

abbrev is_none : Option ℕ → Bool
is_none none = true
is_none (some n) = false

-- The loop of `set_entry`.
unfoldable pub find_entry : Blocks → Option ℕ → Result (Option ℕ)
find_entry [] entry = ok entry
find_entry ((n, b) ∷ blocks) entry = do
  let next = find_entry blocks (some n)
  let same = find_entry blocks entry
  if is_empty b.preds then (check (is_none entry) >> next) else same

unfoldable pub set_entry : Blocks → Result ℕ
unfolding find_entry
set_entry blocks = do entry ← find_entry blocks none; or_raise assertion entry

unfoldable pub find_exits : Blocks → List ℕ
find_exits [] = []
find_exits ((n, b) ∷ blocks) =
    let rest = find_exits blocks in if is_empty b.succs then n ∷ rest else rest

unfoldable pub set_exits : Blocks → Result (List ℕ)
unfolding find_exits
set_exits blocks = do check (not (is_empty (find_exits blocks))); ok (find_exits blocks)

-- The three passes for a function.
unfoldable pub read_func : List BlockLog → Result Func
unfolding add_blocks add_edges check_edges set_entry set_exits
read_func logs = do
  blocks ← add_edges logs (add_blocks logs [])
  check_edges logs blocks
  entry ← set_entry blocks
  exits ← set_exits blocks
  ok (record { blocks = blocks; entry = some entry; exits = exits })

abbrev pub succs_of_block : Option Block → List ℕ
succs_of_block none = []
succs_of_block (some b) = b.succs

unfoldable pub succs_of : Blocks → ℕ → List ℕ
succs_of blocks n = succs_of_block (lookup n blocks)

-- The queue, the end that `pop` takes from first, and the set `visit`.
pub record Frontier : Type 0 where
  pub queue : List ℕ
  pub visit : List ℕ

-- `for item in node.succs`
unfoldable pub visit_succs : List ℕ → Frontier → Frontier
visit_succs [] s = s
visit_succs (item ∷ items) s = visit_succs items (
    if has item s.visit then s else record { queue = s.queue ++ item ∷ []; visit = item ∷ s.visit })

abbrev pub shown_first : ℕ → Option (List ℕ × List ℕ) → Option (List ℕ × List ℕ)
shown_first node none = none
shown_first node (some (shown, visit)) = some (node ∷ shown, visit)

-- The rounds of the loop: the nodes in the order in which they are shown, and `visit` at the end;
-- `none` means that the fuel ran out.
unfoldable pub walk : Blocks → ℕ → List ℕ → List ℕ → Option (List ℕ × List ℕ)
walk blocks fuel [] visit = some ([], visit)
walk blocks zero (node ∷ queue) visit = none
walk blocks (suc fuel) (node ∷ queue) visit =
    let s = visit_succs (succs_of blocks node) (record { queue = queue; visit = visit }) in
    shown_first node (walk blocks fuel s.queue s.visit)

-- `assert len(self.blocks) == len(visit)`, after the nodes were printed.
abbrev pub check_visit : Blocks → Option (List ℕ × List ℕ) → Option (List ℕ × Result (Unit {0}))
check_visit blocks none = none
check_visit blocks (some (shown, visit)) = some (shown, check (length blocks == length visit))

-- `show_cfg` for a function with its entry: the nodes that it prints, in their order, whether or not
-- its last assertion holds, and what that assertion does. There is a round for each block.
unfoldable pub show_cfg : Blocks → ℕ → Option (List ℕ × Result (Unit {0}))
unfolding walk
show_cfg blocks entry = check_visit blocks (walk blocks (length blocks) (entry ∷ []) (entry ∷ []))
