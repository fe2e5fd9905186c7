-- ===== src/Dart/Exec.antt =====
-- script/dart.py: the call stack of a task, the coverage marks, and the launch and the end of a log.
pub mod Calls
use krace.Prelude.{[], ◌∷◌, ◌++◌, ◌==◌, ltb, drop_last}
use krace.Prelude.Int.{pos, negsuc, is_pos}
use krace.Dict.Key.{nat_eq}
use krace.Dart.CtxtType.{LogMeta}
use krace.Dart.Compdb.{CompileDatabase}
use krace.Dart.State.Monad.{
  M, ⊤, gets, modify, check, fetch, fetch_last, get_task, put_task, ◌>>=◌, ◌>>◌,
}
use krace.Dart.State.Notes.{record_func_init, record_func_fini, record_cov_edge}

unfoldable pub log_sys_launch : LogMeta → M ⊤
log_sys_launch meta = do
  check (ltb 0 meta.ptid) "launched with ptid <=0"
  main ← gets (λ s. s.main_ptid)
  check (is_pos main 0) "launched multiple times"
  modify (λ s. record s { main_ptid = pos meta.ptid })

unfoldable pub log_sys_finish : LogMeta → M ⊤
log_sys_finish meta = do
  check (ltb 0 meta.ptid) "terminated with ptid 0"
  main ← gets (λ s. s.main_ptid)
  check (is_pos main meta.ptid) "terminated with a different ptid"
  modify (λ s. record s { main_ptid = negsuc 0 })

module _ (db : CompileDatabase) where
  unfoldable pub log_exec_func_enter : LogMeta → M ⊤
  log_exec_func_enter meta = do
    func ← fetch meta.hval db.funcs
    t ← get_task meta.ptid
    put_task meta.ptid (record t { stack = t.stack ++ func ∷ [] })
    t' ← get_task meta.ptid
    record_func_init meta t' func

  unfoldable pub log_exec_func_exit : LogMeta → M ⊤
  log_exec_func_exit meta = do
    func ← fetch meta.hval db.funcs
    t ← get_task meta.ptid
    top ← fetch_last t.stack
    check (top.hval == func.hval) "call stack corrupted on exit"
    record_func_fini meta t func
    put_task meta.ptid (record t { stack = drop_last t.stack })

  unfoldable pub log_cov_edge : LogMeta → M ⊤
  log_cov_edge meta = do
    block ← fetch meta.hval db.blocks
    t ← get_task meta.ptid
    top ← fetch_last t.stack
    check (top.hval == block.parent.hval) "call stack corrupted in the middle"
    put_task meta.ptid (record t { last_blkid = meta.hval })
    record_cov_edge meta t
