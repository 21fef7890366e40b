-- ===== src/PrettyPrint/Access.antt =====
-- The decoders of access rights that collect the masks in `remove`.
use capev.Base.{[], ◌∷◌}
use capev.PrettyPrint.Flags.{Decoder, mark, drop_all, mark_all, sweep}

abbrev pub api_name_nt_arg_name_desiredaccess : Decoder
api_name_nt_arg_name_desiredaccess = record {
  exact = [];
  tests =
      mark 0x80000000 "GENERIC_READ"
      ∷ mark 0x40000000 "GENERIC_WRITE"
      ∷ mark 0x20000000 "GENERIC_EXECUTE"
      ∷ mark 0x10000000 "GENERIC_ALL"
      ∷ mark 0x2000000 "MAXIMUM_ALLOWED"
      ∷ drop_all 0x1f01ff "FILE_ALL_ACCESS"
      ∷ mark_all 0x120089 "FILE_GENERIC_READ"
      ∷ mark_all 0x120116 "FILE_GENERIC_WRITE"
      ∷ mark_all 0x1200a0 "FILE_GENERIC_EXECUTE"
      ∷ sweep
      ∷ mark 0x1 "FILE_READ_ACCESS"
      ∷ mark 0x2 "FILE_WRITE_ACCESS"
      ∷ mark 0x4 "FILE_APPEND_DATA"
      ∷ mark 0x8 "FILE_READ_EA"
      ∷ mark 0x10 "FILE_WRITE_EA"
      ∷ mark 0x20 "FILE_EXECUTE"
      ∷ mark 0x40 "FILE_DELETE_CHILD"
      ∷ mark 0x80 "FILE_READ_ATTRIBUTES"
      ∷ mark 0x100 "FILE_WRITE_ATTRIBUTES"
      ∷ mark 0x10000 "DELETE"
      ∷ mark 0x20000 "READ_CONTROL"
      ∷ mark 0x40000 "WRITE_DAC"
      ∷ mark 0x80000 "WRITE_OWNER"
      ∷ mark 0x100000 "SYNCHRONIZE"
      ∷ mark 0x1000000 "ACCESS_SYSTEM_SECURITY"
      ∷ sweep
      ∷ [];
}

abbrev pub api_name_ntopenprocess_arg_name_desiredaccess : Decoder
api_name_ntopenprocess_arg_name_desiredaccess = record {
  exact = [];
  tests =
      mark 0x80000000 "GENERIC_READ"
      ∷ mark 0x40000000 "GENERIC_WRITE"
      ∷ mark 0x20000000 "GENERIC_EXECUTE"
      ∷ mark 0x10000000 "GENERIC_ALL"
      ∷ mark 0x2000000 "MAXIMUM_ALLOWED"
      ∷ drop_all 0x1fffff "PROCESS_ALL_ACCESS"
      ∷ drop_all 0x1f0fff "PROCESS_ALL_ACCESS"
      ∷ sweep
      ∷ mark 0x1 "PROCESS_TERMINATE"
      ∷ mark 0x2 "PROCESS_CREATE_THREAD"
      ∷ mark 0x4 "PROCESS_SET_SESSIONID"
      ∷ mark 0x8 "PROCESS_VM_OPERATION"
      ∷ mark 0x10 "PROCESS_VM_READ"
      ∷ mark 0x20 "PROCESS_VM_WRITE"
      ∷ mark 0x40 "PROCESS_DUP_HANDLE"
      ∷ mark 0x80 "PROCESS_CREATE_PROCESS"
      ∷ mark 0x100 "PROCESS_SET_QUOTA"
      ∷ mark 0x200 "PROCESS_SET_INFORMATION"
      ∷ mark 0x400 "PROCESS_QUERY_INFORMATION"
      ∷ mark 0x800 "PROCESS_SUSPEND_RESUME"
      ∷ mark 0x1000 "PROCESS_QUERY_LIMITED_INFORMATION"
      ∷ mark 0x100000 "SYNCHRONIZE"
      ∷ sweep
      ∷ [];
}

abbrev pub api_name_ntopenthread_arg_name_desiredaccess : Decoder
api_name_ntopenthread_arg_name_desiredaccess = record {
  exact = [];
  tests =
      mark 0x80000000 "GENERIC_READ"
      ∷ mark 0x40000000 "GENERIC_WRITE"
      ∷ mark 0x20000000 "GENERIC_EXECUTE"
      ∷ mark 0x10000000 "GENERIC_ALL"
      ∷ mark 0x2000000 "MAXIMUM_ALLOWED"
      ∷ drop_all 0x1fffff "THREAD_ALL_ACCESS"
      ∷ drop_all 0x1f03ff "THREAD_ALL_ACCESS"
      ∷ sweep
      ∷ mark 0x1 "THREAD_TERMINATE"
      ∷ mark 0x2 "THREAD_SUSPEND_RESUME"
      ∷ mark 0x8 "THREAD_GET_CONTEXT"
      ∷ mark 0x10 "THREAD_SET_CONTEXT"
      ∷ mark 0x20 "THREAD_SET_INFORMATION"
      ∷ mark 0x40 "THREAD_QUERY_INFORMATION"
      ∷ mark 0x80 "THREAD_SET_THREAD_TOKEN"
      ∷ mark 0x100 "THREAD_IMPERSONATE"
      ∷ mark 0x200 "THREAD_DIRECT_IMPERSONATION"
      ∷ mark 0x400 "THREAD_SET_LIMITED_INFORMATION"
      ∷ mark 0x800 "THREAD_QUERY_LIMITED_INFORMATION"
      ∷ sweep
      ∷ [];
}
