-- ===== src/Aplib/Depack.antt =====
-- `ap_depack`, `decompress`, `strip_header` and `aplib_decompress` of lib/cuckoo/common/aplib.py.
pub mod Ends
pub mod Encode
pub mod Reads
pub mod Gamma
pub mod Roundtrip
use Prim.Native.Char.{code}
use capev.Base.{
  ℕ, zero, suc, ◌+◌, ◌-◌, ◌*◌, ◌/◌, ◌%◌, ◌==◌, Bool, true, false, not, ◌&&◌, Option, none, some,
  List, [], ◌∷◌, ◌++◌, length, take, leb, ltb, if◌then◌else◌,
}
use capev.Base.Bytes.{slice, unpack_u32}
use capev.Aplib.Reader.{
  State, Decoded, ok, raised, out_of_fuel, Decoding, pure, continue, ◌>>=◌, ap_getbit, bits,
  ap_getgamma, read_byte, copy_byte, append, copy, move,
}

-- The variables of the loop; `none` is the initial -1 of `r0`.
pub record Loop : Type 0 where
  pub r0 : Option ℕ
  pub lwm : ℕ
  pub done : Bool

-- `for _ in range(4): offs = (offs << 1) + ap_getbit(ud)`
unfoldable pub nibble : Decoding ℕ
nibble = do
  b3 ← ap_getbit
  b2 ← ap_getbit
  b1 ← ap_getbit
  b0 ← ap_getbit
  pure (2 * (2 * (2 * (2 * 0 + b3) + b2) + b1) + b0)

-- Bits 1 1 1: one byte from a short distance, or a zero byte.
unfoldable pub tiny_block : Loop → Decoding Loop
tiny_block l = do
  offs ← nibble
  _ ← if offs == 0 then append 0 else copy (some offs) 1
  pure (record l { lwm = 0 })

-- Bits 1 1 0: two or three bytes, or the end.
unfoldable pub short_block : Loop → Decoding Loop
short_block l = do
  offs ← read_byte
  _ ← if offs / 2 == 0 then pure tt else copy (some (offs / 2)) (2 + offs % 2)
  pure (record { r0 = some (offs / 2); lwm = 1; done = offs / 2 == 0 })

-- The length of a block by its offset.
abbrev pub block_length : ℕ → ℕ → ℕ
block_length offs n =
    let n1 = if leb 32000 offs then n + 1 else n in
    let n2 = if leb 1280 offs then n1 + 1 else n1 in if ltb offs 128 then n2 + 2 else n2

unfoldable pub repeat_block : Loop → Decoding Loop
repeat_block l = do n ← ap_getgamma; _ ← copy l.r0 n; pure (record l { lwm = 1 })

-- A gamma code is at least 2, and 3 here after a literal, so the subtraction is exact.
unfoldable pub far_block : Loop → ℕ → Decoding Loop
far_block l high = do
  low ← read_byte
  n ← ap_getgamma
  let offs = 256 * (high - (if l.lwm == 0 then 3 else 2)) + low
  _ ← copy (some offs) (block_length offs n)
  pure (record l { r0 = some offs; lwm = 1 })

-- Bits 1 0.
unfoldable pub block : Loop → Decoding Loop
block l = do
  high ← ap_getgamma
  if l.lwm == 0 && high == 2 then repeat_block l else far_block l high

-- Bit 0.
unfoldable pub literal : Loop → Decoding Loop
literal l = do _ ← copy_byte; pure (record l { lwm = 0 })

-- One round of the main loop.
unfoldable pub round : Loop → Decoding Loop
round l = do
  b1 ← ap_getbit
  if b1 == 0 then literal l else do
    b2 ← ap_getbit
    if b2 == 0 then block l else do b3 ← ap_getbit; if b3 == 0 then short_block l else tiny_block l

unfoldable pub main_loop : ℕ → Loop → Decoding Unit
main_loop zero l s = elim l.done [ true ↦ ok tt s | false ↦ out_of_fuel ]
main_loop (suc n) l s = elim l.done [ true ↦ ok tt s | false ↦ continue (round l s) (main_loop n) ]

abbrev pub start : List ℕ → State
start source = record { source = source; destination = []; tag = 0; bitcount = 0 }

-- A round takes a bit at least.
unfoldable pub ap_depack : List ℕ → Decoded Unit
ap_depack source =
    let s = move source (start source) in
    main_loop (bits s + 1) (record { r0 = none; lwm = 0; done = false }) s

-- `ap_depack` returns `ud.destination`, and `decompress` turns each exception into its own.
pub data Unpacked : Type 0 where
  unpacked : List ℕ → Unpacked
  error stuck : Unpacked

abbrev pub result : Decoded Unit → Unpacked
result (ok a s) = unpacked s.destination
result raised = error
result out_of_fuel = stuck

unfoldable pub decompress : List ℕ → Unpacked
decompress data_in = result (ap_depack data_in)
