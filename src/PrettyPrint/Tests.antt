-- ===== src/PrettyPrint/Tests.antt =====
-- The flag decoders at concrete numbers.
use capev.Base.{◌≡◌, refl}
use capev.PrettyPrint.Flags.{decode, pieces, hex_digits, hex_from}
use capev.PrettyPrint.Tables.{shareaccess, category_registry_arg_name_access_desired_access}
use capev.PrettyPrint.Access.{api_name_ntopenprocess_arg_name_desiredaccess}

decode-shareaccess : decode shareaccess 0x15 ≡ "FILE_SHARE_READ|FILE_SHARE_DELETE|0x00000010"
unfolding decode pieces hex_digits hex_from
decode-shareaccess = refl

decode-key_read : decode category_registry_arg_name_access_desired_access 0x20019 ≡ "KEY_READ"
unfolding decode
decode-key_read = refl

decode-process :
    decode api_name_ntopenprocess_arg_name_desiredaccess 0x800f0001
    ≡ "GENERIC_READ|PROCESS_TERMINATE|0x000f0000"
unfolding decode pieces hex_digits hex_from
decode-process = refl
