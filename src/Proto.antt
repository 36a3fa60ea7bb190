-- ===== src/Proto.antt =====
-- The pipe protocol: crates/yspot-proto/src/lib.rs. The messages, and the frames that carry them: a length
-- of four bytes, little-endian, and a MessagePack payload. MessagePack is a parameter; an `f32` stands as
-- its bits; a reader is the bytes it still gives, and the error it ends with.
pub mod Messages
pub mod Laws
use Prim.Native.Nat.{◌-◌}
use yspot.Prelude.{
  ℕ, zero, suc, ◌+◌, ◌*◌, ◌/◌, ◌%◌, ◌^◌, Bool, true, false, List, [], ◌∷◌, ◌++◌, Option, none, some,
  Bytes, ltb, length, take, drop, if◌then◌else◌,
}

abbrev pub max_frame_c2s : ℕ
max_frame_c2s = 1048576

abbrev pub max_frame_s2c : ℕ
max_frame_s2c = 16777216

-- `std::io::ErrorKind`, with the two that the program tells apart.
pub data IoError : Type 0 where
  unexpected_eof broken_pipe : IoError
  other : ℕ → IoError

pub data ProtoError : Type 0 where
  frame_too_large : ℕ → ℕ → ProtoError
  io : IoError → ProtoError
  bad_encode bad_decode : ProtoError

-- `rmp_serde::to_vec_named` and `rmp_serde::from_slice`
pub record Codec (M : Type 0) : Type 0 where
  pub to_vec_named : M → Option Bytes
  pub from_slice : Bytes → Option M

-- What a reader still gives, and what a read beyond that reports.
pub record Input : Type 0 where
  pub bytes : Bytes
  pub end : IoError

-- `read_exact` of `n` bytes: what it read, or `none` where the input ends before.
unfoldable pub read_exact : ℕ → Input → Option (Bytes × Input)
read_exact n inp =
    if ltb (length inp.bytes) n
    then none
    else some (take n inp.bytes, record inp { bytes = drop n inp.bytes })

-- `u32::to_le_bytes`
abbrev pub to_le_bytes : ℕ → Bytes
to_le_bytes n = n % 256 ∷ n / 256 % 256 ∷ n / 65536 % 256 ∷ n / 16777216 % 256 ∷ []

-- `u32::from_le_bytes`, of four bytes
abbrev pub from_le_bytes : Bytes → ℕ
from_le_bytes (a ∷ b ∷ c ∷ d ∷ _) = a + b * 256 + c * 65536 + d * 16777216
from_le_bytes _ = 0

-- What `read_msg` returns: with a message, the reader behind it.
pub data Received (M : Type 0) : Type 0 where
  message : M → Input → Received M
  clean_eof : Received M
  failed : ProtoError → Received M

abbrev pub eof_or_error : {M : Type 0} → IoError → Received M
eof_or_error unexpected_eof = clean_eof
eof_or_error broken_pipe = failed (io broken_pipe)
eof_or_error (other k) = failed (io (other k))

abbrev with_length : Option Bytes → Option Bytes
with_length none = none
with_length (some payload) = some (to_le_bytes (length payload % 2 ^ 32) ++ payload)

module _ {M : Type 0} (codec : Codec M) where
  unfoldable pub encode : M → Option Bytes
  encode msg = with_length (codec.to_vec_named msg)

  abbrev pub decoded : Option M → Input → Received M
  decoded none rest = failed bad_decode
  decoded (some m) rest = message m rest

  abbrev pub read_payload : IoError → Option (Bytes × Input) → Received M
  read_payload e none = failed (io e)
  read_payload e (some (payload, rest)) = decoded (codec.from_slice payload) rest

  abbrev pub read_body : ℕ → ℕ → Input → Received M
  read_body cap len inp =
      let body = read_payload inp.end (read_exact len inp) in
      if ltb cap len then failed (frame_too_large len cap) else body

  abbrev pub read_framed : ℕ → IoError → Option (Bytes × Input) → Received M
  read_framed cap e none = eof_or_error e
  read_framed cap e (some (len_buf, rest)) = read_body cap (from_le_bytes len_buf) rest

  unfoldable pub read_msg : ℕ → Input → Received M
  read_msg cap inp = read_framed cap inp.end (read_exact 4 inp)

-- A writer that takes bytes until it fails, and what it has taken.
pub record Output : Type 0 where
  pub written : Bytes
  pub broken : Option IoError

module _ {M : Type 0} (codec : Codec M) where
  -- `write_all` and `flush`
  abbrev put_bytes : Bytes → Option IoError → Output → Option ProtoError × Output
  put_bytes buf none w = (none, record w { written = w.written ++ buf })
  put_bytes buf (some e) w = (some (io e), w)

  abbrev put_frame : Option Bytes → Output → Option ProtoError × Output
  put_frame none w = (some bad_encode, w)
  put_frame (some buf) w = put_bytes buf w.broken w

  unfoldable pub write_msg : M → Output → Option ProtoError × Output
  unfolding encode
  write_msg msg w = put_frame (encode codec msg) w
