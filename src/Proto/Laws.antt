-- ===== src/Proto/Laws.antt =====
-- Frames: what is written is read back, and a reader takes no more than its cap.
use Prim.Native.Nat.{min}
use yspot.Prelude.{
  ℕ, zero, suc, ◌+◌, ◌/◌, ◌%◌, ◌≤◌, ◌<◌, ◌≡◌, refl, inl, inr, Bool-cases, Option-cases, ap, ◌∙◌,
  true, false, [], ◌∷◌, ◌++◌, Option, none, some, Bytes, ltb, length, take, drop, arith,
  if◌then◌else◌,
}
use yspot.Proto.{
  Codec, Input, Output, IoError, unexpected_eof, io, read_exact, to_le_bytes, from_le_bytes,
  message, clean_eof, failed, encode, decoded, read_payload, read_body, read_framed, read_msg,
  write_msg, eof_or_error,
}

le_bytes : (n : ℕ) → n < 4294967296 → (rest : Bytes) → from_le_bytes (to_le_bytes n ++ rest) ≡ n
le_bytes n h rest = omega arith

append_take : (xs ys : Bytes) → take (length xs) (xs ++ ys) ≡ xs
append_take [] ys = refl
append_take (x ∷ xs) ys = ap (◌∷◌ x) (append_take xs ys)

append_drop : (xs ys : Bytes) → drop (length xs) (xs ++ ys) ≡ ys
append_drop [] ys = refl
append_drop (x ∷ xs) ys = append_drop xs ys

append_length : (xs ys : Bytes) → ltb (length (xs ++ ys)) (length xs) ≡ false
append_length [] ys = ground arith
append_length (x ∷ xs) ys = let e = append_length xs ys in ground arith

read_exact-append :
    (xs ys : Bytes) (e : IoError)
    → read_exact (length xs) (record { bytes = xs ++ ys; end = e })
      ≡ some (xs, record { bytes = ys; end = e })
unfolding read_exact
read_exact-append xs ys e = rw (append_length xs ys, append_take xs ys, append_drop xs ys) refl

module _ {M : Type 0} (codec : Codec M) (cap : ℕ) (e : IoError) where
  read_msg-four :
      (a b c d : ℕ) (s : Bytes)
      → read_msg codec cap (record { bytes = a ∷ b ∷ c ∷ d ∷ s; end = e })
        ≡ read_body codec cap (from_le_bytes (a ∷ b ∷ c ∷ d ∷ [])) (record { bytes = s; end = e })
  unfolding read_msg
  read_msg-four a b c d s = rw (read_exact-append (a ∷ b ∷ c ∷ d ∷ []) s e) refl

  -- A frame within the cap is read as the decoding of its payload.
  read_msg-frame :
      (payload rest : Bytes)
      → length payload < 4294967296
      → length payload ≤ cap
      → read_msg codec cap
          (record { bytes = to_le_bytes (length payload) ++ (payload ++ rest); end = e })
        ≡ decoded codec (codec.from_slice payload) (record { bytes = rest; end = e })
  read_msg-frame payload rest small fits =
      let n = length payload in
      let no : ltb cap n ≡ false = ground arith in
      read_msg-four (n % 256) (n / 256 % 256) (n / 65536 % 256) (n / 16777216 % 256)
        (payload ++ rest)
      ∙ rw (le_bytes n small [], no, read_exact-append payload rest e) refl

length-take_of_le : (k : ℕ) (xs : Bytes) → k ≤ length xs → length (take k xs) ≡ k
length-take_of_le zero xs h = refl
length-take_of_le (suc k) [] h = absurd (omega arith)
length-take_of_le (suc k) (x ∷ xs) h = ap suc (length-take_of_le k xs (omega arith))

length-take_add_drop : (k : ℕ) (xs : Bytes) → k ≤ length xs → k + length (drop k xs) ≡ length xs
length-take_add_drop zero xs h = omega arith
length-take_add_drop (suc k) [] h = absurd (omega arith)
length-take_add_drop (suc k) (x ∷ xs) h = omega (arith, length-take_add_drop k xs (omega arith))

read_exact-short :
    (n : ℕ) (xs : Bytes)
    → ltb (length xs) n ≡ true
    → read_exact n (record { bytes = xs; end = unexpected_eof }) ≡ none
unfolding read_exact
read_exact-short n xs h = rw h refl

module _ {M : Type 0} (codec : Codec M) (cap : ℕ) where
  encode-some :
      (msg : M) (payload : Bytes)
      → codec.to_vec_named msg ≡ some payload
      → length payload % 4294967296 ≡ length payload
      → encode codec msg ≡ some (to_le_bytes (length payload) ++ payload)
  unfolding encode
  encode-some msg payload enc m = rw (enc, m) refl

  wrote :
      (msg : M) (payload : Bytes) (w : Output)
      → codec.to_vec_named msg ≡ some payload
      → w.broken ≡ none
      → length payload % 4294967296 ≡ length payload
      → write_msg codec msg w
        ≡ (none, record w { written = w.written ++ (to_le_bytes (length payload) ++ payload) })
  unfolding write_msg
  wrote msg payload w enc up m = rw (encode-some msg payload enc m, up) refl

  -- For a cap below 2 ^ 32 and a writer that is not broken, a message that encodes to a payload
  -- within the cap, and decodes from it, is written as one frame behind what was written; a reader
  -- of that frame and any bytes behind it receives the message and is left with those bytes.
  pub write_msg-read_msg :
      (msg : M) (payload : Bytes) (w : Output)
      → codec.to_vec_named msg ≡ some payload
      → codec.from_slice payload ≡ some msg
      → cap < 4294967296
      → length payload ≤ cap
      → w.broken ≡ none
      → (frame : Bytes) × (write_msg codec msg w
          ≡ (none, record w { written = w.written ++ frame }))
        × ((rest : Bytes) (e : IoError)
            → read_msg codec cap (record { bytes = frame ++ rest; end = e })
              ≡ message msg (record { bytes = rest; end = e }))
  write_msg-read_msg msg payload w enc dec small fits up =
      let m : length payload % 4294967296 ≡ length payload = omega arith in
      (
        to_le_bytes (length payload) ++ payload,
        wrote msg payload w enc up m,
        λ rest e. read_msg-frame codec cap e payload rest (omega arith) fits ∙ rw dec refl,
      )

  -- For a cap below 2 ^ 32, a proper prefix of a frame whose payload is within the cap gives no
  -- message: the end of the input inside the length is taken for a clean end, one inside the payload
  -- is an error.
  pub read_msg-truncated :
      (payload : Bytes) (k : ℕ)
      → cap < 4294967296
      → length payload ≤ cap
      → k < 4 + length payload
      → read_msg codec cap (record {
        bytes = take k (to_le_bytes (length payload) ++ payload);
        end = unexpected_eof;
      })
        ≡ (if ltb k 4 then clean_eof else failed (io unexpected_eof))
  unfolding read_msg read_exact
  read_msg-truncated payload zero small fits h = refl
  read_msg-truncated payload (suc zero) small fits h = refl
  read_msg-truncated payload (suc (suc zero)) small fits h = refl
  read_msg-truncated payload (suc (suc (suc zero))) small fits h = refl
  read_msg-truncated payload (suc (suc (suc (suc k)))) small fits h =
      let n = length payload in
      let no : ltb cap n ≡ false = ground arith in
      let four : ltb (suc (suc (suc (suc k)))) 4 ≡ false = ground arith in
      let short : ltb (length (take k payload)) n ≡ true =
        rw (length-take_of_le k payload (omega arith)) (ground arith) in
      read_msg-four codec cap unexpected_eof (n % 256) (n / 256 % 256) (n / 65536 % 256)
        (n / 16777216 % 256) (take k payload)
      ∙ rw (le_bytes n (omega arith) [], no, read_exact-short n (take k payload) short, four) refl

length-drop : (n : ℕ) (xs : Bytes) → length xs ≡ min n (length xs) + length (drop n xs)
length-drop zero xs = omega arith
length-drop (suc n) [] = omega arith
length-drop (suc n) (x ∷ xs) = let h = length-drop n xs in omega arith

-- What a read of `n` bytes leaves.
read_exact-lengths :
    (n : ℕ) (inp rest : Input) (xs : Bytes)
    → read_exact n inp ≡ some (xs, rest)
    → (length inp.bytes ≡ n + length rest.bytes) × (rest.end ≡ inp.end)
unfolding read_exact
read_exact-lengths n inp rest xs h =
    let l = length-drop n inp.bytes in
    elim (Bool-cases (ltb (length inp.bytes) n)) [ inl y ↦ ground arith | inr y ↦ ground arith ]

module _ {M : Type 0} (codec : Codec M) (cap : ℕ) where
  decoded-message :
      (o : Option M) (inp rest : Input) (m : M) → decoded codec o inp ≡ message m rest → inp ≡ rest
  decoded-message none inp rest m h = ground arith
  decoded-message (some x) inp rest m h = ground arith

  read_payload-message :
      (n : ℕ) (inp rest : Input) (m : M)
      → read_payload codec inp.end (read_exact n inp) ≡ message m rest
      → (length inp.bytes ≡ n + length rest.bytes) × (rest.end ≡ inp.end)
  read_payload-message n inp rest m h = elim (Option-cases (read_exact n inp)) [
    | inl e ↦ let h' = rw e at h in ground arith
    | inr ((xs, left), e) ↦
        let h' : decoded codec (codec.from_slice xs) left ≡ message m rest = rw e at h in
        let same = decoded-message (codec.from_slice xs) left rest m h' in
        rw (← same) (read_exact-lengths n inp left xs e)
  ]

  four_lengths :
      (m : M) (rest : Input) (o : Option (Bytes × Input)) (inp : Input)
      → ((xs : Bytes) (left : Input)
          → o ≡ some (xs, left)
          → (length inp.bytes ≡ 4 + length left.bytes) × (left.end ≡ inp.end))
      → read_framed codec cap inp.end o ≡ message m rest
      → (4 + length rest.bytes ≤ length inp.bytes)
        × (length inp.bytes ≤ 4 + cap + length rest.bytes)
        × (rest.end ≡ inp.end)
  four_lengths m rest none inp f h = absurd (no_message inp.end h)
    where
      no_message : (e : IoError) → (eof_or_error e ≡ message m rest) → ⊥
      no_message IoError.unexpected_eof h = ground arith
      no_message IoError.broken_pipe h = ground arith
      no_message (IoError.other k) h = ground arith
  four_lengths m rest (some (xs, left)) inp f h =
      let (l, e) = f xs left refl in
      let n = from_le_bytes xs in
      elim (Bool-cases (ltb cap n)) [
        | inl y ↦ let h' = rw y at h in ground arith
        | inr y ↦
            let h' : read_payload codec left.end (read_exact n left) ≡ message m rest = rw y at h in
            let (l', e') = read_payload-message n left rest m h' in
            (omega arith, ground arith, e' ∙ e)
      ]

  -- A message that is received took a length and at most `cap` bytes of payload from the reader, which
  -- ends as before.
  pub read_msg-bounded :
      (inp rest : Input) (m : M)
      → read_msg codec cap inp ≡ message m rest
      → (4 + length rest.bytes ≤ length inp.bytes)
        × (length inp.bytes ≤ 4 + cap + length rest.bytes)
        × (rest.end ≡ inp.end)
  unfolding read_msg
  read_msg-bounded inp rest m h =
      four_lengths m rest (read_exact 4 inp) inp (λ xs left e. read_exact-lengths 4 inp left xs e) h
