-- ===== src/PrettyPrint/Tables.antt =====
-- The decoders whose tests each clear a mask.
use capev.Base.{[], ◌∷◌}
use capev.PrettyPrint.Flags.{Decoder, drop}

abbrev pub api_name_ntcreatesection_arg_name_desiredaccess : Decoder
api_name_ntcreatesection_arg_name_desiredaccess = record {
  exact = (0xf001f, "SECTION_ALL_ACCESS") ∷ [];
  tests =
      drop 0xf0000 "STANDARD_RIGHTS_REQUIRED"
      ∷ drop 0x1 "SECTION_QUERY"
      ∷ drop 0x4 "SECTION_MAP_READ"
      ∷ drop 0x2 "SECTION_MAP_WRITE"
      ∷ drop 0x8 "SECTION_MAP_EXECUTE"
      ∷ drop 0x10 "SECTION_EXTEND_SIZE"
      ∷ drop 0x20 "SECTION_MAP_EXECUTE_EXPLICIT"
      ∷ [];
}

abbrev pub api_name_createtoolhelp32snapshot_arg_name_flags : Decoder
api_name_createtoolhelp32snapshot_arg_name_flags = record {
  exact = (0xf, "TH32CS_SNAPALL") ∷ [];
  tests =
      drop 0x1 "TH32CS_SNAPHEAPLIST"
      ∷ drop 0x2 "TH32CS_SNAPPROCESS"
      ∷ drop 0x4 "TH32CS_SNAPTHREAD"
      ∷ drop 0x8 "TH32CS_SNAPMODULE"
      ∷ drop 0x10 "TH32CS_SNAPMODULE32"
      ∷ drop 0x80000000 "TH32CS_INHERIT"
      ∷ [];
}

abbrev pub shareaccess : Decoder
shareaccess = record {
  exact = [];
  tests =
      drop 0x1 "FILE_SHARE_READ" ∷ drop 0x2 "FILE_SHARE_WRITE" ∷ drop 0x4 "FILE_SHARE_DELETE" ∷ [];
}

abbrev pub api_name_opensc_arg_name_desiredaccess : Decoder
api_name_opensc_arg_name_desiredaccess = record {
  exact = (0x2000000, "MAXIMUM_ALLOWED") ∷ (0xf003f, "SC_MANAGER_ALL_ACCESS") ∷ [];
  tests =
      drop 0x1 "SC_MANAGER_CONNECT"
      ∷ drop 0x2 "SC_MANAGER_CREATE_SERVICE"
      ∷ drop 0x4 "SC_MANAGER_ENUMERATE_SERVICE"
      ∷ drop 0x8 "SC_MANAGER_LOCK"
      ∷ drop 0x10 "SC_MANAGER_QUERY_LOCK_STATUS"
      ∷ drop 0x20 "SC_MANAGER_MODIFY_BOOT_CONFIG"
      ∷ [];
}

abbrev pub category_services_arg_name_desiredaccess : Decoder
category_services_arg_name_desiredaccess = record {
  exact = (0x2000000, "MAXIMUM_ALLOWED") ∷ (0xf01ff, "SERVICE_ALL_ACCESS") ∷ [];
  tests =
      drop 0x1 "SERVICE_QUERY_CONFIG"
      ∷ drop 0x2 "SERVICE_CHANGE_CONFIG"
      ∷ drop 0x4 "SERVICE_QUERY_STATUS"
      ∷ drop 0x8 "SERVICE_ENUMERATE_DEPENDENTS"
      ∷ drop 0x10 "SERVICE_START"
      ∷ drop 0x20 "SERVICE_STOP"
      ∷ drop 0x40 "SERVICE_PAUSE_CONTINUE"
      ∷ drop 0x80 "SERVICE_INTERROGATE"
      ∷ drop 0x100 "SERVICE_USER_DEFINED_CONTROL"
      ∷ [];
}

abbrev pub category_registry_arg_name_access_desired_access : Decoder
category_registry_arg_name_access_desired_access = record {
  exact =
      (0x2000000, "MAXIMUM_ALLOWED")
      ∷ (0xf003f, "KEY_ALL_ACCESS")
      ∷ (0x20019, "KEY_READ")
      ∷ (0x20006, "KEY_WRITE")
      ∷ (0x2001f, "KEY_READ|KEY_WRITE")
      ∷ [];
  tests =
      drop 0x1 "KEY_QUERY_VALUE"
      ∷ drop 0x2 "KEY_SET_VALUE"
      ∷ drop 0x4 "KEY_CREATE_SUB_KEY"
      ∷ drop 0x8 "KEY_ENUMERATE_SUB_KEYS"
      ∷ drop 0x10 "KEY_NOTIFY"
      ∷ drop 0x20 "KEY_CREATE_LINK"
      ∷ drop 0x100 "KEY_WOW64_64KEY"
      ∷ drop 0xf0000 "STANDARD_RIGHTS_REQUIRED"
      ∷ [];
}

abbrev pub arg_name_protection_and_others : Decoder
arg_name_protection_and_others = record {
  exact = [];
  tests =
      drop 0x1 "PAGE_NOACCESS"
      ∷ drop 0x2 "PAGE_READONLY"
      ∷ drop 0x4 "PAGE_READWRITE"
      ∷ drop 0x8 "PAGE_WRITECOPY"
      ∷ drop 0x10 "PAGE_EXECUTE"
      ∷ drop 0x20 "PAGE_EXECUTE_READ"
      ∷ drop 0x40 "PAGE_EXECUTE_READWRITE"
      ∷ drop 0x80 "PAGE_EXECUTE_WRITECOPY"
      ∷ drop 0x100 "PAGE_GUARD"
      ∷ drop 0x200 "PAGE_NOCACHE"
      ∷ drop 0x400 "PAGE_WRITECOMBINE"
      ∷ [];
}

abbrev pub api_name_in_creation : Decoder
api_name_in_creation = record {
  exact = [];
  tests =
      drop 0x1 "DEBUG_PROCESS"
      ∷ drop 0x2 "DEBUG_ONLY_THIS_PROCESS"
      ∷ drop 0x4 "CREATE_SUSPENDED"
      ∷ drop 0x8 "DETACHED_PROCESS"
      ∷ drop 0x10 "CREATE_NEW_CONSOLE"
      ∷ drop 0x20 "NORMAL_PRIORITY_CLASS"
      ∷ drop 0x40 "IDLE_PRIORITY_CLASS"
      ∷ drop 0x80 "HIGH_PRIORITY_CLASS"
      ∷ drop 0x400 "CREATE_UNICODE_ENVIRONMENT"
      ∷ drop 0x40000 "CREATE_PROTECTED_PROCESS"
      ∷ drop 0x80000 "EXTENDED_STARTUPINFO_PRESENT"
      ∷ drop 0x1000000 "CREATE_BREAKAWAY_FROM_JOB"
      ∷ drop 0x2000000 "CREATE_PRESERVE_CODE_AUTHZ_LEVEL"
      ∷ drop 0x4000000 "CREATE_DEFAULT_ERROR_MODE"
      ∷ drop 0x8000000 "CREATE_NO_WINDOW"
      ∷ [];
}

abbrev pub api_name_move_arg_name_flags : Decoder
api_name_move_arg_name_flags = record {
  exact = [];
  tests =
      drop 0x1 "MOVEFILE_REPLACE_EXISTING"
      ∷ drop 0x2 "MOVEFILE_COPY_ALLOWED"
      ∷ drop 0x4 "MOVEFILE_DELAY_UNTIL_REBOOT"
      ∷ drop 0x8 "MOVEFILE_WRITE_THROUGH"
      ∷ [];
}

abbrev pub arg_name_fileattributes : Decoder
arg_name_fileattributes = record {
  exact = (0x80, "FILE_ATTRIBUTE_NORMAL") ∷ [];
  tests =
      drop 0x1 "FILE_ATTRIBUTE_READONLY"
      ∷ drop 0x2 "FILE_ATTRIBUTE_HIDDEN"
      ∷ drop 0x4 "FILE_ATTRIBUTE_SYSTEM"
      ∷ drop 0x10 "FILE_ATTRIBUTE_DIRECTORY"
      ∷ drop 0x20 "FILE_ATTRIBUTE_ARCHIVE"
      ∷ drop 0x40 "FILE_ATTRIBUTE_DEVICE"
      ∷ drop 0x100 "FILE_ATTRIBUTE_TEMPORARY"
      ∷ drop 0x200 "FILE_ATTRIBUTE_SPARSE_FILE"
      ∷ drop 0x400 "FILE_ATTRIBUTE_REPARSE_POINT"
      ∷ drop 0x800 "FILE_ATTRIBUTE_COMPRESSED"
      ∷ drop 0x1000 "FILE_ATTRIBUTE_OFFLINE"
      ∷ drop 0x2000 "FILE_ATTRIBUTE_NOT_CONTENT_INDEXED"
      ∷ drop 0x4000 "FILE_ATTRIBUTE_ENCRYPTED"
      ∷ drop 0x8000 "FILE_ATTRIBUTE_VIRTUAL"
      ∷ [];
}

abbrev pub api_name_cointernet_arg_name_flags : Decoder
api_name_cointernet_arg_name_flags = record {
  exact = [];
  tests =
      drop 0x1 "SET_FEATURE_ON_THREAD"
      ∷ drop 0x2 "SET_FEATURE_ON_PROCESS"
      ∷ drop 0x4 "SET_FEATURE_IN_REGISTRY"
      ∷ drop 0x8 "SET_FEATURE_ON_THREAD_LOCALMACHINE"
      ∷ drop 0x10 "SET_FEATURE_ON_THREAD_INTRANET"
      ∷ drop 0x20 "SET_FEATURE_ON_THREAD_TRUSTED"
      ∷ drop 0x40 "SET_FEATURE_ON_THREAD_INTERNET"
      ∷ drop 0x80 "SET_FEATURE_ON_THREAD_RESTRICTED"
      ∷ [];
}
