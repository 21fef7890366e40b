-- ===== src/Aplib/Tests.antt =====
-- Decompression at small inputs; the first is the self-test of the source.
use capev.Base.{ℕ, ◌<◌, ◌≡◌, refl, none, some, List, [], ◌∷◌, arith}
use capev.Base.Bytes.{codes}
use capev.Aplib.Reader.{
  ap_getbit, gamma_loop, ap_getgamma, read_byte, copy_byte, append, item, copy_back, copy,
}
use capev.Aplib.Depack.{
  nibble, tiny_block, short_block, repeat_block, far_block, block, literal, round, main_loop,
  ap_depack, unpacked, error, decompress,
}
use capev.Aplib.Depack.Encode.{
  put_bit, put_gamma, Block, byte, near, pair, far, again, encode, play, play_all,
}
use capev.Aplib.Depack.Ends.{Sourced, decompress-Sourced}
use capev.Aplib.Depack.Roundtrip.{decompress-encode}

abbrev compressed : List ℕ
compressed =
    84 ∷ 0 ∷ 104 ∷ 101 ∷ 32 ∷ 113 ∷ 117 ∷ 105 ∷ 99 ∷ 107 ∷ 236 ∷ 98 ∷ 14 ∷ 114 ∷ 111 ∷ 119 ∷ 110
    ∷ 206 ∷ 102 ∷ 174 ∷ 120 ∷ 128 ∷ 106 ∷ 117 ∷ 109 ∷ 112 ∷ 115 ∷ 237 ∷ 228 ∷ 118 ∷ 101 ∷ 117 ∷ 114
    ∷ 96 ∷ 116 ∷ 63 ∷ 108 ∷ 97 ∷ 122 ∷ 121 ∷ 234 ∷ 100 ∷ 254 ∷ 103 ∷ 192 ∷ 0 ∷ []

self_test : decompress compressed ≡ unpacked (codes "The quick brown fox jumps over the lazy dog")
unfolding decompress ap_depack main_loop round literal block far_block repeat_block short_block
    tiny_block nibble copy copy_back item append copy_byte read_byte ap_getgamma gamma_loop
    ap_getbit
self_test = refl

-- Without its end the data raises an exception.
cut_off : decompress (84 ∷ 0 ∷ 104 ∷ []) ≡ error
unfolding decompress ap_depack main_loop round literal block far_block repeat_block short_block
    tiny_block nibble copy copy_back item append copy_byte read_byte ap_getgamma gamma_loop
    ap_getbit
cut_off = refl

decompress-Sourced_example : Sourced (λ n. n < 256) (omega arith) (decompress (255 ∷ 192 ∷ 0 ∷ []))
decompress-Sourced_example =
    decompress-Sourced (λ n. n < 256) (omega arith) (255 ∷ 192 ∷ 0 ∷ [])
      (omega arith, (omega arith, (omega arith, tt)))

abbrev blocks : List Block
blocks = near 1 ∷ byte 98 ∷ pair 2 1 ∷ far 3 2 ∷ byte 99 ∷ again 3 ∷ []

abbrev text : List ℕ
text = 97 ∷ 97 ∷ 98 ∷ 97 ∷ 98 ∷ 97 ∷ 97 ∷ 98 ∷ 97 ∷ 97 ∷ 99 ∷ 97 ∷ 97 ∷ 99 ∷ []

abbrev source : List ℕ
source = 226 ∷ 98 ∷ 208 ∷ 5 ∷ 3 ∷ 34 ∷ 99 ∷ 192 ∷ 0 ∷ 1 ∷ []

played : play_all blocks none (97 ∷ []) ≡ some text
unfolding play_all play copy_back item
played = refl

encoded : encode 0 blocks (0 ∷ 0 ∷ 0 ∷ 0 ∷ 0 ∷ [], 1 ∷ []) ≡ ([], source)
unfolding encode put_bit put_gamma
encoded = refl

decompress-encode_example : decompress (97 ∷ source) ≡ unpacked text
decompress-encode_example =
    decompress-encode 97 blocks (0 ∷ 0 ∷ 0 ∷ 0 ∷ 0 ∷ [], 1 ∷ []) source text
      (
        omega arith,
        (tt, ((omega arith, omega arith), (omega arith, (tt, ((refl, omega arith), tt))))),
      )
      encoded played
