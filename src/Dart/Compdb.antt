-- ===== src/Dart/Compdb.antt =====
-- script/racer_parse_compile_data.py: the parts of `CompileDatabase` that the analyzer reads. A
-- `Value` knows its parent: an instruction its block, a block its function.
use Prim.Native.String.{String, ◌++◌ as ◌⧺◌}
use text.Mathlib.Text.{find?}
use krace.Prelude.{ℕ, List, [], ◌∷◌, Bool, false, ◌||◌, is_some, Option, none, some}
use mathlib.Core.Option.{map}
use krace.Dict.{Dict}

pub record ValueFunc : Type 0 where
  pub hval : ℕ
  pub name : String

pub record ValueBlock : Type 0 where
  pub hval : ℕ
  pub parent : ValueFunc

pub record ValueInst : Type 0 where
  pub hval : ℕ
  pub info : List String
  pub text : String
  pub parent : ValueBlock

-- `CompileDatabase`, and what `read_source_location` returns for a location below `PROJ_PATH`, `none`
-- where it raises: the files of the kernel's source stay the same during a run.
pub record CompileDatabase : Type 0 where
  pub read_source : String → Option String
  pub insts : Dict ℕ ValueInst
  pub funcs : Dict ℕ ValueFunc
  pub blocks : Dict ℕ ValueBlock

-- `' @@ '.join(parts)`
unfoldable pub join : List String → String
join [] = ""
join (p ∷ []) = p
join (p ∷ q ∷ ps) = ◌⧺◌ p (◌⧺◌ " @@ " (join (q ∷ ps)))

-- `ValueInst.get_locs`
unfoldable pub get_locs : ValueInst → String
unfolding join
get_locs inst = join inst.info

abbrev with_line : Option String → Option (List String) → Option (List String)
with_line none lines = none
with_line (some line) none = none
with_line (some line) (some lines) = some (line ∷ lines)

-- `_load_source`, the parts before they are joined
unfoldable pub source_lines : CompileDatabase → List String → Option (List String)
source_lines db [] = some []
source_lines db (loc ∷ info) = with_line (db.read_source loc) (source_lines db info)

-- `_load_source`
unfoldable pub load_source : CompileDatabase → ValueInst → Option String
unfolding source_lines join
load_source db inst = map join (source_lines db inst.info)

-- `a in b` on texts
unfoldable pub is_part : String → String → Bool
is_part a b = is_some (find? b a)

unfoldable pub mentions : List String → String → Bool
unfolding is_part
mentions [] locs = false
mentions (i ∷ is) locs = is_part i locs || mentions is locs
