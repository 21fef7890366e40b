-- ===== src/Behavior/Buffers.antt =====
-- modules/processing/behavior.py, `EncryptedBuffers`: the buffers that the calls encrypt.
use capev.Base.{
  Bool, any, append_assoc, append_empty, false, if◌then◌else◌, List, [], ◌∷◌, ◌++◌, not, Option,
  refl, String, sym, ap, ◌&&◌, ◌∙◌, ◌≡◌, true, ℕ,
}
use capev.Behavior.Calls.{Call, Python, Text, api_starts, get_argument, get_stripped}
use capev.Behavior.Texts.{truthy}

pub record Process : Type 0 where
  pub process_name : Text
  pub process_id : ℕ

-- What an entry of one kind of call holds besides the common keys.
pub data Detail : Type 0 where
  buffer_size : Option Text → Detail
  crypt_key : Option Text → Detail
  no_detail : Detail

pub record Buffer : Type 0 where
  pub process : Process
  pub api_call : String
  pub buffer : Option Text
  pub detail : Detail

-- `buf in self.bufs`: the list holds dictionaries, and a text equals none of them.
abbrev pub in_bufs : Option Text → List Buffer → Bool
in_bufs buf bufs = any (λ entry. false) bufs

-- One of the three ifs of `event_apicall`.
unfoldable pub add_buffer : Bool → Buffer → List Buffer → List Buffer
add_buffer test entry bufs =
    if test && (truthy entry.buffer && not (in_bufs entry.buffer bufs))
    then bufs ++ (entry ∷ [])
    else bufs

module _ (py : Python) (p : Process) (call : Call) where
  unfoldable pub ssl_packet : Buffer
  unfolding get_argument get_stripped
  ssl_packet = record {
    process = p;
    api_call = "SslEncryptPacket";
    buffer = get_stripped py call "Buffer";
    detail = buffer_size (get_argument call "BufferSize");
  }

  unfoldable pub crypt_encrypt : Buffer
  unfolding get_argument get_stripped
  crypt_encrypt = record {
    process = p;
    api_call = "CryptEncrypt";
    buffer = get_stripped py call "Buffer";
    detail = crypt_key (get_argument call "CryptKey");
  }

  unfoldable pub encrypt_message : Buffer
  unfolding get_stripped
  encrypt_message = record {
    process = p;
    api_call = "CryptEncryptMessage";
    buffer = get_stripped py call "Buffer";
    detail = no_detail;
  }

  unfoldable pub event_apicall : List Buffer → List Buffer
  unfolding add_buffer ssl_packet crypt_encrypt encrypt_message api_starts
  event_apicall bufs = add_buffer (api_starts call "CryptEncryptMessage") encrypt_message (
      add_buffer (api_starts call "CryptEncrypt") crypt_encrypt
        (add_buffer (api_starts call "SslEncryptPacket") ssl_packet bufs))

-- A text is never found.
in_bufs_never : (buf : Option Text) (bufs : List Buffer) → in_bufs buf bufs ≡ false
in_bufs_never buf [] = refl
in_bufs_never buf (b ∷ bufs) = in_bufs_never buf bufs

add_buffer-append :
    (test : Bool) (entry : Buffer) (bufs : List Buffer)
    → add_buffer test entry bufs ≡ bufs ++ add_buffer test entry []
unfolding add_buffer
add_buffer-append test entry bufs =
    rw (in_bufs_never entry.buffer bufs) (split (test && (truthy entry.buffer && true)))
  where
    split :
        (b : Bool)
        → (if b then bufs ++ (entry ∷ []) else bufs) ≡ bufs ++ (if b then entry ∷ [] else [])
    split true = refl
    split false = sym (append_empty bufs)

-- Two steps that append what they append to the empty list.
compose-append :
    (f g : List Buffer → List Buffer)
    → ((bufs : List Buffer) → f bufs ≡ bufs ++ f [])
    → ((bufs : List Buffer) → g bufs ≡ bufs ++ g [])
    → (bufs : List Buffer) → g (f bufs) ≡ bufs ++ g (f [])
compose-append f g hf hg bufs =
    hg (f bufs)
    ∙ ap (λ xs. xs ++ g []) (hf bufs)
    ∙ append_assoc bufs (f []) (g [])
    ∙ ap (λ xs. bufs ++ xs) (sym (hg (f [])))

event_apicall-append :
    (py : Python) (p : Process) (call : Call) (bufs : List Buffer)
    → event_apicall py p call bufs ≡ bufs ++ event_apicall py p call []
unfolding event_apicall
event_apicall-append py p call =
    compose-append
      (λ bufs.
        add_buffer (api_starts call "CryptEncrypt") (crypt_encrypt py p call)
          (add_buffer (api_starts call "SslEncryptPacket") (ssl_packet py p call) bufs))
      (add_buffer (api_starts call "CryptEncryptMessage") (encrypt_message py p call))
      (compose-append (add_buffer (api_starts call "SslEncryptPacket") (ssl_packet py p call))
        (add_buffer (api_starts call "CryptEncrypt") (crypt_encrypt py p call))
        (add_buffer-append (api_starts call "SslEncryptPacket") (ssl_packet py p call))
        (add_buffer-append (api_starts call "CryptEncrypt") (crypt_encrypt py p call)))
      (add_buffer-append (api_starts call "CryptEncryptMessage") (encrypt_message py p call))
